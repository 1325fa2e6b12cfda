-- ===== src/Main/Settled.antt =====
-- Exit codes 0 and 2 come after a delete of the message that was taken.

use parser_os_worker.Active.Effects.{mark-storage}
use parser_os_worker.Base.{
  Bool, Option, String, arith, eq_refl, inl, inr, ltb, none, refl, some, suc, ℕ, ◌<◌, ◌≡◌, ◌≤◌, ◌⊎◌,
}
use parser_os_worker.Compile.Effects.{download_manifest-desk}
use parser_os_worker.Json.{Fields}
use parser_os_worker.Keepalive.{safe_delete}
use parser_os_worker.Main.{
  admit, decode, dispatch, exhausted, give_up, handle_decoded, handle_message, is_skipped,
  not_rerun, peek, sow_job, undecodable,
}
use parser_os_worker.Main.Effects.{
  clear_inflight-desk, desk, earlier-desk, guarded-errand, is_redundant-desk, log_depth-desk,
  retrain-errand, set_inflight-desk,
}
use parser_os_worker.Message.{JobMessage}
use parser_os_worker.Notify.Effects.{enqueue-desk, forward-desk, trigger-desk}
use parser_os_worker.Progress.Effects.{fail_progress-storage}
use parser_os_worker.Service.{Call, Exc, Host, Message, SimpleJob}
use parser_os_worker.Service.Action.{Action, Proc, ask, attempt, catch, ok, pure, ◌>>=◌, ◌>>◌}
use parser_os_worker.Service.Calls.{ack_tried}
use parser_os_worker.Service.Only.{Only, Only-attempt, Only-grows, Only-iso_now, count}
use parser_os_worker.Service.Only.Rules.{Only-upload}
use parser_os_worker.Service.Triples.{
  Triple, Triple-bind, Triple-catch, Triple-if, Triple-keeps, Triple-maybe, Triple-ok, Triple-pure,
  Triple-weaken,
}
use parser_os_worker.SowDraft.Effects.{run_sow_draft-errand}
use parser_os_worker.Status.Effects.{write_status-storage}
use parser_os_worker.Work.{
  completed_extra, finish, is_permanent, on_failure, run_job, skip_unchanged, work,
}

module _ (w : Host) (r : String) (n : ℕ) where
  -- n deletes of messages of the queue have been tried
  abbrev AtLeast : ℕ → Proc → Type 0
  AtLeast k s = k ≤ count (ack_tried r) s.log

  abbrev Settles : ℕ → Proc → Type 0
  Settles code s = (code ≡ 1) ⊎ AtLeast (suc n) s

  abbrev Settled : Action ℕ → Type 0
  Settled m = Triple (AtLeast n) m Settles (AtLeast n)

  after-Only :
      {A : Type 0} {p : Call → Bool} {m : Action A} {f : A → Action ℕ}
      → Only p m
      → ((a : A) → Settled (f a))
      → Settled (m >>= f)
  after-Only {m} {f} h k =
      Triple-bind m f
        (Triple-weaken m (Triple-keeps m (Only-grows (ack_tried r) n h)) (λ a s p. p) (λ s p. p)) k

  delete-tried :
      (msg : Message) → Triple (AtLeast n) (safe_delete w r msg) (λ _. AtLeast (suc n)) (AtLeast n)
  unfolding safe_delete catch ask ◌>>=◌
  delete-tried msg = record { at = λ s p. ground (arith, eq_refl r) }

  attempted :
      (msg : Message)
      → Triple (AtLeast n) (attempt (safe_delete w r msg)) (λ _. AtLeast (suc n)) (AtLeast n)
  unfolding attempt safe_delete catch ask ◌>>=◌
  attempted msg = record { at = λ s p. ground (arith, eq_refl r) }

  -- a delete, and what follows it
  after_delete :
      (msg : Message) {m : Action ℕ}
      → Triple (AtLeast (suc n)) m Settles (AtLeast n)
      → Settled (safe_delete w r msg >> m)
  after_delete msg t = Triple-bind (safe_delete w r msg) _ (delete-tried msg) (λ _. t)

  returned : (code : ℕ) → Triple (AtLeast (suc n)) (pure code) Settles (AtLeast n)
  returned code = Triple-pure code (λ s p. inr p)

  kept :
      {A : Type 0} {p : Call → Bool} {m : Action A} {f : A → Action ℕ}
      → Only p m
      → ((a : A) → Triple (AtLeast (suc n)) (f a) Settles (AtLeast n))
      → Triple (AtLeast (suc n)) (m >>= f) Settles (AtLeast n)
  kept {m} {f} h k =
      Triple-bind m f
        (Triple-weaken m (Triple-keeps m (Only-grows (ack_tried r) (suc n) h)) (λ a s p. p)
          (λ s p. omega arith))
        k

  finish-Settled :
      (msg : Message) (job : SimpleJob) (result : Fields) → Settled (finish w r msg job result)
  unfolding finish
  finish-Settled msg job result =
      after-Only (write_status-storage w job "completed" (completed_extra w result)) λ _.
        after-Only (Only-attempt _ (enqueue-desk w job)) λ _.
          after-Only (Only-attempt _ (trigger-desk w job)) λ _.
            after_delete msg
              (kept (clear_inflight-desk w) (λ _. kept (retrain-errand w job) (λ _. returned 0)))

  skip_unchanged-Settled : (msg : Message) (job : SimpleJob) → Settled (skip_unchanged w r msg job)
  unfolding skip_unchanged
  skip_unchanged-Settled msg job =
      after-Only (write_status-storage w job _ _) (λ _. after_delete msg (returned 0))

  work-Settled : (msg : Message) (job : JobMessage) → Settled (work w r msg job)
  unfolding work
  work-Settled msg job = after-Only (download_manifest-desk w job.manifest_blob_url) λ manifest.
      after-Only (is_redundant-desk w job manifest) λ redundant.
        Triple-if redundant _ _ (λ _. skip_unchanged-Settled msg job.job)
          λ _. after-Only (guarded-errand w job manifest) (finish-Settled msg job.job)

  permanent-Settled : (msg : Message) → Settled (attempt (safe_delete w r msg) >> pure 2)
  permanent-Settled msg =
      Triple-bind (attempt (safe_delete w r msg)) _ (attempted msg) (λ _. returned 2)

  on_failure-Settled :
      (msg : Message) (job : SimpleJob) (e : Exc) → Settled (on_failure w r msg job e)
  unfolding on_failure
  on_failure-Settled msg job e = after-Only {p = desk w} (Only-iso_now w) λ now.
      after-Only (Only-attempt _ (Only-upload {p = desk w} w _ _ _ refl)) λ _.
        after-Only (write_status-storage w job _ _) λ _.
          Triple-if (is_permanent e) _ _ (λ _. permanent-Settled msg)
            (λ _. Triple-pure 1 (λ s p. inl refl))

  run_job-Settled : (msg : Message) (job : JobMessage) → Settled (run_job w r msg job)
  unfolding run_job
  run_job-Settled msg job = after-Only (set_inflight-desk w _) λ _.
      after-Only (write_status-storage w job.job _ _) λ _.
        after-Only (mark-storage w job.job _)
          λ _. Triple-catch _ _ (work-Settled msg job) (on_failure-Settled msg job.job)

  give_up-Settled :
      (msg : Message) (job : SimpleJob) (raw stage status_error progress_error reason : String)
      → Settled (give_up w r msg job raw stage status_error progress_error reason)
  unfolding give_up
  give_up-Settled msg job raw stage status_error progress_error reason =
      after-Only (write_status-storage w job _ _) λ _.
        after-Only (fail_progress-storage w job _ _ _)
          λ _. after-Only (forward-desk w _ _ _ _ _) (λ _. after_delete msg (returned 2))

  exhausted-Settled :
      (msg : Message) (job : SimpleJob) (raw : String) → Settled (exhausted w r msg job raw)
  unfolding exhausted
  exhausted-Settled msg job raw = give_up-Settled msg job raw _ _ _ _

  not_rerun-Settled :
      (msg : Message) (job : SimpleJob) (raw stage : String)
      → Settled (not_rerun w r msg job raw stage)
  unfolding not_rerun
  not_rerun-Settled msg job raw stage = give_up-Settled msg job raw stage _ _ _

  admit-Settled : (msg : Message) (job : JobMessage) → Settled (admit w r msg job)
  unfolding admit
  admit-Settled msg job =
      Triple-if (is_skipped w job.job) _ _ (λ _. after_delete msg (returned 0))
        (λ _. run_job-Settled msg job)

  dispatch-Settled :
      (msg : Message) (job : JobMessage) (raw : String) → Settled (dispatch w r msg job raw)
  unfolding dispatch
  dispatch-Settled msg job raw =
      Triple-if (ltb w.max_dequeue_count msg.dequeue_count) (exhausted w r msg job.job raw) _
        (λ _. exhausted-Settled msg job.job raw)
        λ _. after-Only (earlier-desk w msg job.job) λ earlier.
          Triple-maybe earlier (admit w r msg job) (not_rerun w r msg job.job raw)
            (admit-Settled msg job) (not_rerun-Settled msg job.job raw)

  handle_decoded-Settled :
      (msg : Message) (d : Option (JobMessage × String)) → Settled (handle_decoded w r msg d)
  unfolding handle_decoded undecodable
  handle_decoded-Settled msg none =
      after-Only (forward-desk w _ _ _ _ _) (λ _. after_delete msg (returned 2))
  handle_decoded-Settled msg (some (job, raw)) =
      after-Only (log_depth-desk w w.priority_queue_name)
        λ _. after-Only (log_depth-desk w w.queue_name) (λ _. dispatch-Settled msg job raw)

  sow_job-Settled : (msg : Message) (d : Fields) → Settled (sow_job w r msg d)
  unfolding sow_job
  sow_job-Settled msg d =
      after-Only (run_sow_draft-errand w _ d)
        λ _. after_delete msg (kept (clear_inflight-desk w) (λ _. returned 0))

  handle_message-Settled : (msg : Message) → Settled (handle_message w r msg)
  unfolding handle_message
  handle_message-Settled msg = after-Only (set_inflight-desk w _) λ _.
      Triple-if _ (sow_job w r msg (peek w msg.content))
        (handle_decoded w r msg (decode w msg.content)) (λ _. sow_job-Settled msg _)
        (λ _. handle_decoded-Settled msg _)

-- Whatever the services answer: handling a message of a queue ends with exit code 1, or a delete of
-- a message of that queue has been tried since.
pub handle_message-settled :
    (w : Host) (r : String) (msg : Message) (s s' : Proc) (code : ℕ)
    → handle_message w r msg s ≡ (ok code, s')
    → (code ≡ 1) ⊎ (count (ack_tried r) s.log < count (ack_tried r) s'.log)
handle_message-settled w r msg s s' code e =
    Triple-ok (handle_message w r msg) (handle_message-Settled w r (count (ack_tried r) s.log) msg)
      s s' code (omega arith) e
