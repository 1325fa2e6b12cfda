-- ===== src/Lease/Bounds.antt =====
-- The renewals of a lease.
use parser_os_worker.Base.{List, Option, [], if◌then◌else◌, ltb, none, some, suc, ℕ, ◌+◌, ◌∷◌}
use parser_os_worker.Lease.{Tally}
use parser_os_worker.Service.Action.{Outcome, exited, ok, raised}

-- the ticks that come before the end of the lease's time
unfoldable pub in_time : ℕ → List ℕ → ℕ
in_time limit [] = 0
in_time limit (elapsed ∷ rest) =
    let n = in_time limit rest in if ltb limit elapsed then 0 else suc n

-- the renewals that were tried, where the thread returned
abbrev pub tried : Outcome Tally → Option ℕ
tried (ok t) = some (t.renewals + t.errors)
tried (raised e) = none
tried (exited n) = none
