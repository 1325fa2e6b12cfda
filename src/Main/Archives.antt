-- ===== src/Main/Archives.antt =====
-- A message that is given up is archived before it is deleted.
use parser_os_worker.Base.{
  Option, String, [], arith, eq_refl, false, inl, inr, is_empty, refl, some, str_eq, suc, ℕ, ◌<◌,
  ◌∷◌, ◌≡◌, ◌≤◌,
}
use parser_os_worker.Json.{Json, fields, str}
use parser_os_worker.Keepalive.{ensure_queue, safe_delete}
use parser_os_worker.Main.{give_up}
use parser_os_worker.Main.Effects.{desk}
use parser_os_worker.Notify.{forward_to_poison}
use parser_os_worker.Notify.Effects.{forward-Returns, forward-desk}
use parser_os_worker.Progress.{fail_progress_if_ours}
use parser_os_worker.Progress.Effects.{fail_progress-Returns, fail_progress-storage}
use parser_os_worker.Service.{Exc, Host, Message, SimpleJob, create_queue, send_message}
use parser_os_worker.Service.Action.{
  Action, Outcome, Proc, Reply-cases, ask, attempt, exited, iso_now, ok, pure, raise, raised, ◌>>=◌,
}
use parser_os_worker.Service.Calls.{
  acked, desk_of_storage, errand-Misses-acked, errand_of_desk, sent_to,
}
use parser_os_worker.Service.Keeps.{Keeps, Keeps-iso_now}
use parser_os_worker.Service.Only.{Only, Only-count, Only-grows, count}
use parser_os_worker.Service.Returns.{IsOk, Returns-iso_now}
use parser_os_worker.Service.Triples.{
  Ends, Triple, Triple-bind, Triple-catch, Triple-if, Triple-keeps, Triple-pure, Triple-total,
}
use parser_os_worker.Status.{write_status}
use parser_os_worker.Status.Effects.{write_status-Returns, write_status-storage}

-- what an action that returned has answered
IsOk-ok : {A : Type 0} (o : Outcome A) → IsOk o → (a : A) × (o ≡ ok a)
IsOk-ok (ok a) h = (a, refl)
IsOk-ok (raised x) h = absurd h
IsOk-ok (exited n) h = absurd h

module _ (w : Host) (k : ℕ) where
  -- k sends to the poison queue, or attempts at one, at least
  abbrev Least : ℕ → Proc → Type 0
  Least n s = n ≤ count (sent_to w.poison_queue_name) s.log

  raising :
      {A : Type 0} {Q : A → Proc → Type 0} (e : Exc)
      → Triple (Least (suc k)) (raise e) Q (Least (suc k))
  unfolding raise
  raising e = record { at = λ s p. p }

  creating :
      Triple (Least k) (ask w (create_queue w.poison_queue_name)) (λ _. Least k) (Least (suc k))
  unfolding ask
  creating = record {
    at = λ s p. elim (Reply-cases (w.reply s.log (create_queue w.poison_queue_name))) [
      | inl (a, e) ↦ rw e p
      | inr (x, e) ↦ rw (e, eq_refl w.poison_queue_name) (omega arith)
    ];
  }

  ensuring : Triple (Least k) (ensure_queue w w.poison_queue_name) (λ _. Least k) (Least (suc k))
  unfolding ensure_queue
  ensuring =
      Triple-catch _ _ creating
        λ e. Triple-if _ _ _ (λ _. Triple-pure tt (λ s p. omega arith)) (λ _. raising e)

  sending :
      (j : Json)
      → Triple
          (Least k)
          (ask w (send_message w.poison_queue_name j))
          (λ _. Least (suc k))
          (Least (suc k))
  unfolding ask
  sending j = record {
    at = λ s p. elim (Reply-cases (w.reply s.log (send_message w.poison_queue_name j))) [
      | inl (a, e) ↦ rw (e, eq_refl w.poison_queue_name) (omega arith)
      | inr (x, e) ↦ rw (e, eq_refl w.poison_queue_name) (omega arith)
    ];
  }

  forwarding :
      (raw reason : String) (job : Option SimpleJob) (n : ℕ) (source : String)
      → is_empty w.poison_queue_name ≡ false
      → Triple
          (Least k)
          (forward_to_poison w raw reason job n source)
          (λ _. Least (suc k))
          (Least (suc k))
  unfolding forward_to_poison attempt
  forwarding raw reason job n source named = rw named (
      Triple-catch _ _
        (Triple-bind _ _ ensuring λ _.
          Triple-bind _ _
            (Triple-total (iso_now w) (Returns-iso_now w) (Triple-keeps _ (Keeps-iso_now w)))
            λ now. sending _)
        (λ e. Triple-pure tt (λ s p. p)))

module _ (w : Host) (queue : String) (msg : Message) (job : SimpleJob)
    (raw stage status_error progress_error reason : String) (s : Proc) where
  abbrev said_failed : Proc
  said_failed =
      (write_status w job "failed"
        (fields (("stage", str stage) ∷ ("error", str status_error) ∷ [])) s).1

  abbrev told : Proc
  told = (fail_progress_if_ours w job stage progress_error "failed" said_failed).1

  -- the state in which the delete begins
  abbrev pub archived : Proc
  archived = (forward_to_poison w raw reason (some job) msg.dequeue_count queue told).1

  deleted_last :
      give_up w queue msg job raw stage status_error progress_error reason s
      ≡ (safe_delete w queue msg >>= λ _. pure 2) archived
  unfolding give_up ◌>>=◌
  deleted_last =
      rw
        (
          (IsOk-ok _ (
              (write_status-Returns w job "failed"
                  (fields (("stage", str stage) ∷ ("error", str status_error) ∷ []))).at
                s)).1,
          (IsOk-ok _
              ((fail_progress-Returns w job stage progress_error "failed").at said_failed)).1,
          (IsOk-ok _ ((forward-Returns w raw reason (some job) msg.dequeue_count queue).at told)).1,
        )
        refl

  status-desk : Only (desk w) (
      write_status w job "failed"
        (fields (("stage", str stage) ∷ ("error", str status_error) ∷ [])))
  status-desk = desk_of_storage _ (write_status-storage w job "failed" _)

  progress-desk : Only (desk w) (fail_progress_if_ours w job stage progress_error "failed")
  progress-desk = desk_of_storage _ (fail_progress-storage w job stage progress_error "failed")

  archive-desk : Only (desk w) (forward_to_poison w raw reason (some job) msg.dequeue_count queue)
  archive-desk = forward-desk w raw reason (some job) msg.dequeue_count queue

  Keeps-acked :
      {A : Type 0} {m : Action A} (n : ℕ)
      → str_eq w.inflight_queue_name queue ≡ false
      → Only (desk w) m
      → Keeps (λ s. count (acked queue) s.log ≡ n) m
  Keeps-acked n other h =
      Only-count (acked queue) n (errand_of_desk _ h)
        (errand-Misses-acked w.inflight_queue_name queue other)

  undeleted :
      str_eq w.inflight_queue_name queue ≡ false
      → count (acked queue) archived.log ≡ count (acked queue) s.log
  undeleted other =
      let n = count (acked queue) s.log in
      (Keeps-acked n other archive-desk).at told (
        (Keeps-acked n other progress-desk).at said_failed
          ((Keeps-acked n other status-desk).at s refl))

  archive_tried :
      is_empty w.poison_queue_name ≡ false
      → count (sent_to w.poison_queue_name) s.log < count (sent_to w.poison_queue_name) archived.log
  archive_tried named =
      let k = count (sent_to w.poison_queue_name) s.log in
      ends_least k (forward_to_poison w raw reason (some job) msg.dequeue_count queue told).0
        archived ((forward-Returns w raw reason (some job) msg.dequeue_count queue).at told)
        ((forwarding w k raw reason (some job) msg.dequeue_count queue named).at told (
          (Only-grows (sent_to w.poison_queue_name) k progress-desk).at said_failed
            ((Only-grows (sent_to w.poison_queue_name) k status-desk).at s (omega arith))))
    where
      ends_least :
          (k : ℕ) (o : Outcome (Unit {0})) (s : Proc)
          → IsOk o
          → Ends (λ _. Least w k (suc k)) (Least w k (suc k)) o s
          → k < count (sent_to w.poison_queue_name) s.log
      ends_least k (ok a) s h p = omega arith
      ends_least k (raised x) s h p = absurd h
      ends_least k (exited n) s h p = absurd h

-- Whatever the services answer: when a message is given up, its delete is the last step, and before
-- it no message of the queue has been deleted, while a send to the poison queue (or the creation of
-- that queue) has been tried. The poison queue has a name, and the queue is not the keepalives'.
pub give_up-archives :
    (w : Host) (queue : String) (msg : Message) (job : SimpleJob)
    (raw stage status_error progress_error reason : String) (s : Proc)
    → is_empty w.poison_queue_name ≡ false
    → str_eq w.inflight_queue_name queue ≡ false
    → (give_up w queue msg job raw stage status_error progress_error reason s
        ≡ (safe_delete w queue msg >>= λ _. pure 2)
            (archived w queue msg job raw stage status_error progress_error reason s))
      × (count
            (acked queue)
            (archived w queue msg job raw stage status_error progress_error reason s).log
          ≡ count (acked queue) s.log)
      × (count (sent_to w.poison_queue_name) s.log
          < count
              (sent_to w.poison_queue_name)
              (archived w queue msg job raw stage status_error progress_error reason s).log)
give_up-archives w queue msg job raw stage status_error progress_error reason s named other = (
  deleted_last w queue msg job raw stage status_error progress_error reason s,
  undeleted w queue msg job raw stage status_error progress_error reason s other,
  archive_tried w queue msg job raw stage status_error progress_error reason s named,
)
