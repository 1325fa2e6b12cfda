-- ===== src/Main/Acks.antt =====
-- When a message is acknowledged: deleted from its queue. Exit code 1 and an exception leave it
-- there; every other exit code comes after a delete. The keepalives' queue is another one.

use parser_os_worker.Active.Effects.{mark-storage}
use parser_os_worker.Base.{Option, String, arith, false, ltb, none, refl, some, str_eq, ℕ, ◌≡◌, ◌≢◌}
use parser_os_worker.Compile.Effects.{download_manifest-desk, errand}
use parser_os_worker.Json.{Fields}
use parser_os_worker.Keepalive.{safe_delete}
use parser_os_worker.Keepalive.Effects.{safe_delete-Stays}
use parser_os_worker.Main.{
  admit, decode, dispatch, exhausted, give_up, handle_decoded, handle_message, is_skipped, main,
  not_rerun, peek, poll, receive_from, sow_job, take_one, undecodable,
}
use parser_os_worker.Main.Effects.{
  clear_inflight-Returns, desk, earlier-desk, guarded-errand, is_redundant-desk, log_depth-desk,
  recover_once-desk, retrain-Returns, set_inflight-desk,
}
use parser_os_worker.Message.{JobMessage}
use parser_os_worker.Notify.Effects.{drain-storage, enqueue-desk, forward-desk, trigger-desk}
use parser_os_worker.Progress.Effects.{fail_progress-storage}
use parser_os_worker.Service.{Exc, Host, Message, SimpleJob, receive}
use parser_os_worker.Service.Action.{
  Action, Proc, ask, attempt, catch, ok, pure, raised, ◌>>=◌, ◌>>◌,
}
use parser_os_worker.Service.Calls.{acked, desk_of_storage, errand-Misses-acked, errand_of_desk}
use parser_os_worker.Service.Keeps.{
  Keeps, Keeps-ask, Keeps-bind, Keeps-catch, Keeps-modify, Keeps-option, Keeps-pure,
}
use parser_os_worker.Service.Only.{Only, Only-attempt, Only-count, Only-iso_now, count}
use parser_os_worker.Service.Only.Rules.{Only-upload}
use parser_os_worker.Service.Returns.{Returns-attempt}
use parser_os_worker.Service.Triples.{
  Any, Triple, Triple-bind, Triple-catch, Triple-if, Triple-keeps, Triple-maybe, Triple-ok,
  Triple-pure, Triple-raised, Triple-total, triple_any,
}
use parser_os_worker.SowDraft.Effects.{run_sow_draft-errand}
use parser_os_worker.Status.Effects.{write_status-storage}
use parser_os_worker.Temp.Effects.{scrub_stale-Only}
use parser_os_worker.Work.{
  clear_inflight, completed_extra, finish, is_permanent, on_failure, retrain, run_job,
  skip_unchanged, work,
}

module _ (w : Host) (q : String) (other : str_eq w.inflight_queue_name q ≡ false) (n : ℕ) where
  -- n messages of q have been deleted
  abbrev Same : Proc → Type 0
  Same s = count (acked q) s.log ≡ n

  -- and so it is if the exit code is 1
  abbrev IfRetried : ℕ → Proc → Type 0
  IfRetried code s = code ≡ 1 → Same s

  -- the judgement on a part of `main`
  abbrev Fair : Action ℕ → Type 0
  Fair m = Triple Same m IfRetried Same

  Keeps-errand : {A : Type 0} {m : Action A} → Only (errand w) m → Keeps Same m
  Keeps-errand h = Only-count (acked q) n h (errand-Misses-acked w.inflight_queue_name q other)

  after_errand :
      {A : Type 0} {m : Action A} {f : A → Action ℕ}
      → Only (errand w) m
      → ((a : A) → Fair (f a))
      → Fair (m >>= f)
  after_errand {m} {f} h k = Triple-bind m f (Triple-keeps m (Keeps-errand h)) k

  after_desk :
      {A : Type 0} {m : Action A} {f : A → Action ℕ}
      → Only (desk w) m
      → ((a : A) → Fair (f a))
      → Fair (m >>= f)
  after_desk h k = after_errand (errand_of_desk w.inflight_queue_name h) k

  -- a delete that raises has deleted nothing
  delete-Fair : (r : String) (msg : Message) → Triple Same (safe_delete w r msg) (λ _. Any) Same
  unfolding safe_delete catch ask ◌>>=◌
  delete-Fair r msg = record { at = λ s p. ground arith }

  -- a delete, and then something that always returns another code than 1
  after_delete :
      (r : String) (msg : Message) {m : Action ℕ}
      → Triple Any m IfRetried Same
      → Fair (safe_delete w r msg >> m)
  after_delete r msg t = Triple-bind (safe_delete w r msg) _ (delete-Fair r msg) (λ _. t)

  -- what returns another code than 1, whatever went before
  returned : (code : ℕ) → code ≢ 1 → Triple Any (pure code) IfRetried Same
  returned code ne = Triple-pure code (λ s p e. absurd (ne e))

  finish-tail :
      (job : SimpleJob) → Triple Any (clear_inflight w >> (retrain w job >> pure 0)) IfRetried Same
  finish-tail job =
      Triple-bind (clear_inflight w) _ (Triple-total _ (clear_inflight-Returns w) (triple_any _))
        λ _.
          Triple-bind (retrain w job) _ (Triple-total _ (retrain-Returns w job) (triple_any _))
            (λ _. returned 0 (omega arith))

  finish-Fair :
      (r : String) (msg : Message) (job : SimpleJob) (result : Fields)
      → Fair (finish w r msg job result)
  unfolding finish
  finish-Fair r msg job result =
      after_desk
        (desk_of_storage _ (write_status-storage w job "completed" (completed_extra w result)))
        λ _. after_desk (Only-attempt _ (enqueue-desk w job)) λ _.
          after_desk (Only-attempt _ (trigger-desk w job)) λ _. after_delete r msg (finish-tail job)

  skip_unchanged-Fair :
      (r : String) (msg : Message) (job : SimpleJob) → Fair (skip_unchanged w r msg job)
  unfolding skip_unchanged
  skip_unchanged-Fair r msg job =
      after_desk (desk_of_storage _ (write_status-storage w job _ _))
        (λ _. after_delete r msg (returned 0 (omega arith)))

  work-Fair : (r : String) (msg : Message) (job : JobMessage) → Fair (work w r msg job)
  unfolding work
  work-Fair r msg job = after_desk (download_manifest-desk w job.manifest_blob_url) λ manifest.
      after_desk (is_redundant-desk w job manifest) λ redundant.
        Triple-if redundant _ _ (λ _. skip_unchanged-Fair r msg job.job)
          λ _. after_errand (guarded-errand w job manifest) (finish-Fair r msg job.job)

  permanent-Fair : (r : String) (msg : Message) → Fair (attempt (safe_delete w r msg) >> pure 2)
  permanent-Fair r msg =
      Triple-bind (attempt (safe_delete w r msg)) _
        (Triple-total _ (Returns-attempt _ (safe_delete-Stays w r msg)) (triple_any _))
        (λ _. returned 2 (omega arith))

  on_failure-Fair :
      (r : String) (msg : Message) (job : SimpleJob) (e : Exc) → Fair (on_failure w r msg job e)
  unfolding on_failure
  on_failure-Fair r msg job e = after_desk (Only-iso_now w) λ now.
      after_desk (Only-attempt _ (Only-upload w _ _ _ refl)) λ _.
        after_desk (desk_of_storage _ (write_status-storage w job _ _)) λ _.
          Triple-if (is_permanent e) _ _ (λ _. permanent-Fair r msg)
            (λ _. Triple-pure 1 (λ s p _. p))

  run_job-Fair : (r : String) (msg : Message) (job : JobMessage) → Fair (run_job w r msg job)
  unfolding run_job
  run_job-Fair r msg job = after_desk (set_inflight-desk w _) λ _.
      after_desk (desk_of_storage _ (write_status-storage w job.job _ _)) λ _.
        after_desk (desk_of_storage _ (mark-storage w job.job _))
          λ _. Triple-catch _ _ (work-Fair r msg job) (on_failure-Fair r msg job.job)

  give_up-Fair :
      (r : String) (msg : Message) (job : SimpleJob)
      (raw stage status_error progress_error reason : String)
      → Fair (give_up w r msg job raw stage status_error progress_error reason)
  unfolding give_up
  give_up-Fair r msg job raw stage status_error progress_error reason =
      after_desk (desk_of_storage _ (write_status-storage w job _ _)) λ _.
        after_desk (desk_of_storage _ (fail_progress-storage w job _ _ _)) λ _.
          after_desk (forward-desk w _ _ _ _ _) λ _. after_delete r msg (returned 2 (omega arith))

  exhausted-Fair :
      (r : String) (msg : Message) (job : SimpleJob) (raw : String)
      → Fair (exhausted w r msg job raw)
  unfolding exhausted
  exhausted-Fair r msg job raw = give_up-Fair r msg job raw _ _ _ _

  not_rerun-Fair :
      (r : String) (msg : Message) (job : SimpleJob) (raw stage : String)
      → Fair (not_rerun w r msg job raw stage)
  unfolding not_rerun
  not_rerun-Fair r msg job raw stage = give_up-Fair r msg job raw stage _ _ _

  admit-Fair : (r : String) (msg : Message) (job : JobMessage) → Fair (admit w r msg job)
  unfolding admit
  admit-Fair r msg job =
      Triple-if (is_skipped w job.job) _ _ (λ _. after_delete r msg (returned 0 (omega arith)))
        (λ _. run_job-Fair r msg job)

  dispatch-Fair :
      (r : String) (msg : Message) (job : JobMessage) (raw : String)
      → Fair (dispatch w r msg job raw)
  unfolding dispatch
  dispatch-Fair r msg job raw =
      Triple-if (ltb w.max_dequeue_count msg.dequeue_count) (exhausted w r msg job.job raw) _
        (λ _. exhausted-Fair r msg job.job raw)
        λ _. after_desk (earlier-desk w msg job.job) λ earlier.
          Triple-maybe earlier (admit w r msg job) (not_rerun w r msg job.job raw)
            (admit-Fair r msg job) (not_rerun-Fair r msg job.job raw)

  undecodable-Fair : (r : String) (msg : Message) → Fair (undecodable w r msg)
  unfolding undecodable
  undecodable-Fair r msg =
      after_desk (forward-desk w _ _ _ _ _) (λ _. after_delete r msg (returned 2 (omega arith)))

  handle_decoded-Fair :
      (r : String) (msg : Message) (d : Option (JobMessage × String))
      → Fair (handle_decoded w r msg d)
  unfolding handle_decoded
  handle_decoded-Fair r msg none = undecodable-Fair r msg
  handle_decoded-Fair r msg (some (job, raw)) =
      after_desk (log_depth-desk w w.priority_queue_name)
        λ _. after_desk (log_depth-desk w w.queue_name) (λ _. dispatch-Fair r msg job raw)

  sow_job-Fair : (r : String) (msg : Message) (d : Fields) → Fair (sow_job w r msg d)
  unfolding sow_job
  sow_job-Fair r msg d = after_errand (run_sow_draft-errand w _ d) λ _. after_delete r msg (
      Triple-bind (clear_inflight w) _ (Triple-total _ (clear_inflight-Returns w) (triple_any _))
        (λ _. returned 0 (omega arith)))

  handle_message-Fair : (r : String) (msg : Message) → Fair (handle_message w r msg)
  unfolding handle_message
  handle_message-Fair r msg = after_desk (set_inflight-desk w _) λ _.
      Triple-if _ (sow_job w r msg (peek w msg.content))
        (handle_decoded w r msg (decode w msg.content)) (λ _. sow_job-Fair r msg _)
        (λ _. handle_decoded-Fair r msg _)

  receive_from-Same : (r : String) → Keeps Same (receive_from w r)
  unfolding receive_from
  receive_from-Same r = Keeps-bind _ _ (Keeps-ask w (receive r) (λ s p. p) (λ s p. p)) λ found.
      Keeps-option found _ _ (Keeps-pure none)
        (λ (msg, receipt). Keeps-bind _ _ (Keeps-modify _ (λ s p. p)) (λ _. Keeps-pure _))

  poll-Same : Keeps Same (poll w)
  unfolding poll
  poll-Same =
      Keeps-bind _ _
        (Keeps-catch _ _ (receive_from-Same w.priority_queue_name) (λ _. Keeps-pure none))
        λ urgent. Keeps-option urgent _ _ (receive_from-Same w.queue_name) (λ m. Keeps-pure _)

  take_one-Fair : Fair (take_one w)
  unfolding take_one
  take_one-Fair = Triple-bind (poll w) _ (Triple-keeps (poll w) poll-Same) λ found.
      Triple-maybe found (pure 0) _ (Triple-pure 0 (λ s p e. p))
        (λ (r, msg). handle_message-Fair r msg)

  main-Fair : Fair (main w)
  unfolding main
  main-Fair = after_desk (scrub_stale-Only w _ (λ t. refl)) λ _.
      Triple-if _ (pure 0) _ (λ _. Triple-pure 0 (λ s p e. p))
        λ _. after_desk (recover_once-desk w) λ _.
          after_desk (desk_of_storage _ (drain-storage w)) λ draining.
            Triple-if draining (pure 0) (take_one w) (λ _. Triple-pure 0 (λ s p e. p))
              (λ _. take_one-Fair)

-- Whatever the services answer: a run of `main` that ends with exit code 1 has deleted no message
-- of any queue but the in-flight queue of the keepalives.
pub main-retried :
    (w : Host) (q : String) (s s' : Proc)
    → str_eq w.inflight_queue_name q ≡ false
    → main w s ≡ (ok 1, s')
    → count (acked q) s'.log ≡ count (acked q) s.log
main-retried w q s s' other e =
    Triple-ok (main w) (main-Fair w q other (count (acked q) s.log)) s s' 1 refl e refl

-- Whatever the services answer: a run of `main` that raises has deleted no message of any queue but
-- the in-flight queue of the keepalives.
pub main-raised :
    (w : Host) (q : String) (s s' : Proc) (x : Exc)
    → str_eq w.inflight_queue_name q ≡ false
    → main w s ≡ (raised x, s')
    → count (acked q) s'.log ≡ count (acked q) s.log
main-raised w q s s' x other e =
    Triple-raised (main w) (main-Fair w q other (count (acked q) s.log)) s s' x refl e
