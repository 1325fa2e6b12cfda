-- ===== src/Main/Gates.antt =====
-- What stands before a poll of the queues, and before a compile.

use parser_os_worker.Base.{
  Bool-cases, Option, String, arith, false, inl, inr, ltb, maybe, none, refl, some, true, ℕ, ◌≡◌,
  ◌≢◌, ◌≤◌,
}
use parser_os_worker.Keepalive.{safe_delete}
use parser_os_worker.Main.{
  admit, dispatch, earlier_attempt, exhausted, give_up, is_skipped, not_rerun,
}
use parser_os_worker.Main.Effects.{desk, earlier-desk}
use parser_os_worker.Message.{JobMessage}
use parser_os_worker.Notify.Effects.{forward-desk}
use parser_os_worker.Progress.Effects.{fail_progress-storage}
use parser_os_worker.Service.{Host, Message, SimpleJob, delete_message}
use parser_os_worker.Service.Action.{Action, Outcome, Proc, continue, exited, ok, raised, ◌>>=◌}
use parser_os_worker.Service.Calls.{compiled, desk-Misses-compiled, desk_of_storage}
use parser_os_worker.Service.Keeps.{
  Keeps, Keeps-ask, Keeps-bind, Keeps-catch, Keeps-gets, Keeps-if, Keeps-pure, Keeps-raise,
}
use parser_os_worker.Service.Only.{Only, Only-count, count}
use parser_os_worker.Status.Effects.{write_status-storage}

module _ (w : Host) (n : ℕ) where
  abbrev Compiled : Proc → Type 0
  Compiled s = count compiled s.log ≡ n

  Keeps-desk : {A : Type 0} {m : Action A} → Only (desk w) m → Keeps Compiled m
  Keeps-desk h = Only-count compiled n h (desk-Misses-compiled w.inflight_queue_name)

  delete-Compiled : (r : String) (msg : Message) → Keeps Compiled (safe_delete w r msg)
  unfolding safe_delete
  delete-Compiled r msg =
      Keeps-catch _ _
        (Keeps-bind _ _ (Keeps-gets _)
          (λ x. Keeps-ask w (delete_message r msg.id x) (λ s p. p) (λ s p. p)))
        (λ e. Keeps-if _ _ _ (Keeps-pure tt) (Keeps-raise e))

  give_up-Compiled :
      (r : String) (msg : Message) (job : SimpleJob)
      (raw stage status_error progress_error reason : String)
      → Keeps Compiled (give_up w r msg job raw stage status_error progress_error reason)
  unfolding give_up
  give_up-Compiled r msg job raw stage status_error progress_error reason =
      Keeps-bind _ _ (Keeps-desk (desk_of_storage _ (write_status-storage w job _ _))) λ _.
        Keeps-bind _ _ (Keeps-desk (desk_of_storage _ (fail_progress-storage w job _ _ _))) λ _.
          Keeps-bind _ _ (Keeps-desk (forward-desk w _ _ _ _ _))
            λ _. Keeps-bind _ _ (delete-Compiled r msg) (λ _. Keeps-pure 2)

  exhausted-Compiled :
      (r : String) (msg : Message) (job : SimpleJob) (raw : String)
      → Keeps Compiled (exhausted w r msg job raw)
  unfolding exhausted
  exhausted-Compiled r msg job raw = give_up-Compiled r msg job raw _ _ _ _

  not_rerun-Compiled :
      (r : String) (msg : Message) (job : SimpleJob) (raw stage : String)
      → Keeps Compiled (not_rerun w r msg job raw stage)
  unfolding not_rerun
  not_rerun-Compiled r msg job raw stage = give_up-Compiled r msg job raw stage _ _ _

  skipped-Compiled :
      (r : String) (msg : Message) (job : JobMessage)
      → is_skipped w job.job ≡ true
      → Keeps Compiled (admit w r msg job)
  unfolding admit
  skipped-Compiled r msg job e = rw e (Keeps-bind _ _ (delete-Compiled r msg) (λ _. Keeps-pure 0))

  -- what an earlier attempt must have left for `admit` to be reached
  earlier_gate :
      (r : String) (msg : Message) (job : JobMessage) (raw : String) (o : Outcome (Option String))
      (s : Proc)
      → Compiled s
      → (count compiled
            (continue o (λ e. maybe e (admit w r msg job) (not_rerun w r msg job.job raw)) s).1.log
          ≢ n)
      → (o ≡ ok none) × (count compiled (admit w r msg job s).1.log ≢ n)
  earlier_gate r msg job raw (ok none) s p grew = (refl, grew)
  earlier_gate r msg job raw (ok (some stage)) s p grew =
      absurd (grew ((not_rerun-Compiled r msg job.job raw stage).at s p))
  earlier_gate r msg job raw (raised e) s p grew = absurd (grew p)
  earlier_gate r msg job raw (exited k) s p grew = absurd (grew p)

module _ (w : Host) (r : String) (msg : Message) (job : JobMessage) (raw : String) (s : Proc) where
  abbrev admitted : Proc
  admitted = (earlier_attempt w msg job.job s).1

  abbrev Grew : Proc → Type 0
  Grew s' = count compiled s'.log ≢ count compiled s.log

  not_exhausted :
      Grew (dispatch w r msg job raw s).1 → ltb w.max_dequeue_count msg.dequeue_count ≡ false
  unfolding dispatch
  not_exhausted grew = elim (Bool-cases (ltb w.max_dequeue_count msg.dequeue_count)) [
    | inl e ↦
        absurd (
          (rw e at grew)
            ((exhausted-Compiled w (count compiled s.log) r msg job.job raw).at s refl))
    | inr e ↦ e
  ]

  past_earlier :
      ltb w.max_dequeue_count msg.dequeue_count ≡ false
      → Grew (dispatch w r msg job raw s).1
      → ((earlier_attempt w msg job.job s).0 ≡ ok none) × Grew (admit w r msg job admitted).1
  unfolding dispatch ◌>>=◌
  past_earlier e grew =
      earlier_gate w (count compiled s.log) r msg job raw (earlier_attempt w msg job.job s).0
        admitted ((Keeps-desk w (count compiled s.log) (earlier-desk w msg job.job)).at s refl)
        (rw e at grew)

  not_skipped : Grew (admit w r msg job admitted).1 → is_skipped w job.job ≡ false
  not_skipped grew = elim (Bool-cases (is_skipped w job.job)) [
    | inl e ↦ absurd (
        grew (
          (skipped-Compiled w (count compiled s.log) r msg job e).at admitted
            ((Keeps-desk w (count compiled s.log) (earlier-desk w msg job.job)).at s refl)))
    | inr e ↦ e
  ]

-- Whatever the services answer: if `dispatch` starts a compile, then the message has been dequeued
-- at most max_dequeue_count times, no earlier attempt ended in a stage that is not re-run (which is
-- asked only of a message that was dequeued before), and the deal is not on the skip list.
pub dispatch-compiles :
    (w : Host) (r : String) (msg : Message) (job : JobMessage) (raw : String) (s : Proc)
    → count compiled (dispatch w r msg job raw s).1.log ≢ count compiled s.log
    → (msg.dequeue_count ≤ w.max_dequeue_count)
      × ((earlier_attempt w msg job.job s).0 ≡ ok none)
      × (is_skipped w job.job ≡ false)
dispatch-compiles w r msg job raw s grew =
    let e = not_exhausted w r msg job raw s grew in
    let (none_left, grew') = past_earlier w r msg job raw s e grew in
    (ground arith, none_left, not_skipped w r msg job raw s grew')
