-- ===== src/Main/Polls.antt =====
-- When the queues are polled, and in which order.
use parser_os_worker.Base.{
  Bool-cases, Option, String, false, if◌then◌else◌, inl, inr, none, not, refl, some, true, ℕ, ◌&&◌,
  ◌∷◌, ◌≡◌, ◌≢◌,
}
use parser_os_worker.Main.{main, poll, receive_from, recover_once, take_one}
use parser_os_worker.Main.Effects.{desk, recover_once-desk}
use parser_os_worker.Notify.{drain_requested}
use parser_os_worker.Service.{Host, Message, Reply, answer, did, exists, failed, failure, receive}
use parser_os_worker.Service.Action.{
  Action, Option-cases, Outcome, Proc, Reply-cases, ask, catch, continue, exited, modify, ok, pure,
  raised, ◌>>=◌,
}
use parser_os_worker.Service.Calls.{errand-Misses-polled, errand_of_desk, polled}
use parser_os_worker.Service.Keeps.{Keeps}
use parser_os_worker.Service.Only.{Only, Only-count, count}
use parser_os_worker.Temp.{scrub_stale}
use parser_os_worker.Temp.Effects.{scrub_stale-Only}

module _ (w : Host) where
  -- a message that was received, as `receive_from` answers it
  abbrev pub taken :
      String → Proc → Option (Message × Option String) → Outcome (Option (String × Message)) × Proc
  taken queue s none = (ok none, s)
  taken queue s (some (msg, receipt)) = (ok (some (queue, msg)), record s { receipt = receipt })

  abbrev pub polled_one :
      String
      → Proc
      → Reply (Option (Message × Option String))
      → Outcome (Option (String × Message)) × Proc
  polled_one queue s (answer found) =
      taken queue (record s { log = did (receive queue) ∷ s.log }) found
  polled_one queue s (failure e) = (raised e, record s { log = failed (receive queue) ∷ s.log })

  -- the poll, by what the priority queue answers
  abbrev pub after_urgent :
      Proc → Reply (Option (Message × Option String)) → Outcome (Option (String × Message)) × Proc
  after_urgent s (answer (some (msg, receipt))) = (
    ok (some (w.priority_queue_name, msg)),
    record s { log = did (receive w.priority_queue_name) ∷ s.log; receipt = receipt },
  )
  after_urgent s (answer none) =
      let h = did (receive w.priority_queue_name) ∷ s.log in
      polled_one w.queue_name (record s { log = h }) (w.reply h (receive w.queue_name))
  after_urgent s (failure e) =
      let h = failed (receive w.priority_queue_name) ∷ s.log in
      polled_one w.queue_name (record s { log = h }) (w.reply h (receive w.queue_name))

  receive-polled :
      (queue : String) (s : Proc)
      → receive_from w queue s ≡ polled_one queue s (w.reply s.log (receive queue))
  unfolding receive_from ◌>>=◌ ask pure modify
  receive-polled queue s = elim (Reply-cases (w.reply s.log (receive queue))) [
    | inl (found, e) ↦ elim (Option-cases found) [
      | inl f ↦ rw (e, f) refl
      | inr (m, f) ↦ rw (e, f) refl
    ]
    | inr (x, e) ↦ rw e refl
  ]

-- The priority queue is asked first. If it answers a message, that message is taken, with its
-- receipt, and the normal queue is not asked; if it is empty or raises, what the normal queue
-- answers is the answer.
pub poll-order :
    (w : Host) (s : Proc)
    → poll w s ≡ after_urgent w s (w.reply s.log (receive w.priority_queue_name))
unfolding poll ◌>>=◌ catch pure
poll-order w s = elim (Reply-cases (w.reply s.log (receive w.priority_queue_name))) [
  | inl (found, e) ↦ elim (Option-cases found) [
    | inl f ↦ rw (receive-polled w w.priority_queue_name s, e, f) (receive-polled w w.queue_name _)
    | inr (m, f) ↦ rw (receive-polled w w.priority_queue_name s, e, f) refl
  ]
  | inr (x, e) ↦ rw (receive-polled w w.priority_queue_name s, e) (receive-polled w w.queue_name _)
]

module _ (w : Host) (s : Proc) where
  -- the state in which the drain sentinel is looked for
  abbrev pub recovered_state : Proc
  recovered_state = (recover_once w (scrub_stale w s).1).1

  abbrev Unpolled : Proc → Type 0
  Unpolled s' = count polled s'.log ≡ count polled s.log

  Keeps-Unpolled : {A : Type 0} (m : Action A) → Only (desk w) m → Keeps Unpolled m
  Keeps-Unpolled m h =
      Only-count polled (count polled s.log) (errand_of_desk _ h)
        (errand-Misses-polled w.inflight_queue_name)

  -- a drain that was requested ends the run
  drained :
      (o : Outcome (Unit {0})) (t : Proc)
      → Unpolled t
      → w.reply t.log (exists w.drain_sentinel_blob) ≡ answer true
      → Unpolled
          (continue o
            (λ _. drain_requested w >>= λ draining. if draining then pure 0 else take_one w)
            t).1
  unfolding drain_requested ◌>>=◌ catch ask pure
  drained (ok a) t p e = rw e p
  drained (raised x) t p e = p
  drained (exited k) t p e = p

  scrubbed : Unpolled (scrub_stale w s).1
  scrubbed = (Keeps-Unpolled (scrub_stale w) (scrub_stale-Only w (desk w) (λ t. refl))).at s refl

  -- a run that leaves the work to the warm pool ends there
  left_alone :
      (o : Outcome ℕ) (t : Proc) → Unpolled t → Unpolled (continue o (λ _. pure {A = ℕ} 0) t).1
  unfolding pure
  left_alone (ok n) t p = p
  left_alone (raised x) t p = p
  left_alone (exited k) t p = p

  deferred : (w.defer_to_warm && not w.worker_loop) ≡ true → Unpolled (main w s).1
  unfolding main ◌>>=◌
  deferred e = rw e (left_alone (scrub_stale w s).0 (scrub_stale w s).1 scrubbed)

  -- the recovery, and what follows it
  awake :
      (o : Outcome ℕ) (t : Proc)
      → Unpolled t
      → w.reply (recover_once w t).1.log (exists w.drain_sentinel_blob) ≡ answer true
      → Unpolled
          (continue o
            (λ _. recover_once w >>= λ _.
              drain_requested w >>= λ draining. if draining then pure 0 else take_one w)
            t).1
  unfolding ◌>>=◌
  awake (ok n) t p f =
      drained (recover_once w t).0 (recover_once w t).1
        ((Keeps-Unpolled (recover_once w) (recover_once-desk w)).at t p) f
  awake (raised x) t p f = p
  awake (exited k) t p f = p

  undeferred :
      (w.defer_to_warm && not w.worker_loop) ≡ false
      → w.reply recovered_state.log (exists w.drain_sentinel_blob) ≡ answer true
      → Unpolled (main w s).1
  unfolding main ◌>>=◌
  undeferred e f = rw e (awake (scrub_stale w s).0 (scrub_stale w s).1 scrubbed f)

-- Whatever the services answer: a process polls a queue only if it does not leave the work to the
-- warm pool, and if the drain sentinel was not found when it looked for it, after the recovery.
pub main-polls :
    (w : Host) (s : Proc)
    → count polled (main w s).1.log ≢ count polled s.log
    → ((w.defer_to_warm && not w.worker_loop) ≡ false)
      × (w.reply (recovered_state w s).log (exists w.drain_sentinel_blob) ≢ answer true)
main-polls w s grew = elim (Bool-cases (w.defer_to_warm && not w.worker_loop)) [
  | inl e ↦ absurd (grew (deferred w s e))
  | inr e ↦ (e, λ f. grew (undeferred w s e f))
]
