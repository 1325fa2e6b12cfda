-- ===== src/Lease.antt =====
-- `_LeaseRenewer`: the lease of a message is renewed for as long as its compile runs.
pub mod Bounds
use parser_os_worker.Base.{
  List, Option, String, [], if◌then◌else◌, is_empty, ltb, max, none, some, ℕ, ◌+◌, ◌∷◌,
}
use parser_os_worker.Service.{Host, Message, update_message}
use parser_os_worker.Service.Action.{Action, Proc, ask, catch, gets, modify, pure, ◌>>=◌, ◌>>◌}

-- the numbers that the constructor settles
pub record Renewer : Type 0 where
  pub every : ℕ
  pub max_total : ℕ
  pub lease : ℕ

unfoldable pub new_renewer : ℕ → ℕ → ℕ → Renewer
new_renewer every max_total lease = record {
  every = max 30 every;
  max_total = max (max 30 every) max_total;
  lease = lease;
}

pub record Tally : Type 0 where
  pub renewals : ℕ
  pub errors : ℕ

module _ (w : Host) where
  -- the receipt that the update answered, where it answered one
  rebind : Option String → Proc → Proc
  rebind none s = s
  rebind (some r) s = if is_empty r then s else record s { receipt = some r }

  -- one renewal: a failure is counted, and tried again at the next tick
  pub renew : Renewer → String → Message → Tally → Action Tally
  unfolding rebind
  renew r queue msg t =
      catch
        (do
          receipt ← gets (λ s. s.receipt)
          updated ← ask w (update_message queue msg.id receipt r.lease)
          modify (rebind updated)
          pure (record t { renewals = t.renewals + 1 }))
        (λ _. pure (record t { errors = t.errors + 1 }))

  -- _run: for each wait that timed out, the seconds since the start
  pub renewer_run : Renewer → String → Message → List ℕ → Tally → Action Tally
  unfolding renew
  renewer_run r queue msg [] t = pure t
  renewer_run r queue msg (elapsed ∷ rest) t =
      if ltb r.max_total elapsed
      then pure t
      else do t' ← renew r queue msg t; renewer_run r queue msg rest t'
