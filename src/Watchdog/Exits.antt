-- ===== src/Watchdog/Exits.antt =====
-- How the watchdog and the memory guard end.

use parser_os_worker.Active.Effects.{clear-Stays}
use parser_os_worker.Base.{Bool-cases, List, [], all, if◌then◌else◌, inl, inr, refl, ℕ, ◌∷◌, ◌≡◌}
use parser_os_worker.Keepalive.Effects.{delete_keepalive-Stays}
use parser_os_worker.Progress.Effects.{fail_progress-Stays, read_progress-Returns}
use parser_os_worker.Service.{Host, SimpleJob}
use parser_os_worker.Service.Action.{Proc, exited, ok, pure}
use parser_os_worker.Service.Exits.{Exits, exits_rules}
use parser_os_worker.Service.Returns.{Returns}
use parser_os_worker.Service.Returns.Rules.{returns_rules}
use parser_os_worker.Status.Effects.{write_status-Stays}
use parser_os_worker.Watchdog.{fits_in, memory_guard_fire, memory_guard_run, withdraw}

module _ (w : Host) (job : SimpleJob) where
  withdraw-Returns : Returns (withdraw w job)
  unfolding withdraw
  withdraw-Returns = search (returns_rules, delete_keepalive-Stays, clear-Stays) depth 12

  fire-Exits :
      (limit done total used : ℕ) → Exits 75 (memory_guard_fire w job limit done total used)
  unfolding memory_guard_fire
  fire-Exits limit done total used =
      search
        (
          exits_rules, read_progress-Returns, write_status-Stays, fail_progress-Stays,
          withdraw-Returns,
        )
        depth 12

-- Whatever the services answer: the memory guard ends the process with code 75 as soon as a reading
-- reaches the fraction of the limit, and returns where every reading is below it.
pub memory_guard_run-exits :
    (w : Host) (job : SimpleJob) (limit fraction done total : ℕ) (readings : List ℕ) (s : Proc)
    → (memory_guard_run w job limit fraction done total readings s).0
      ≡ (if all (fits_in w limit fraction) readings then ok tt else exited 75)
unfolding memory_guard_run pure
memory_guard_run-exits w job limit fraction done total [] s = refl
memory_guard_run-exits w job limit fraction done total (used ∷ readings) s =
    elim (Bool-cases (fits_in w limit fraction used)) [
      | inl e ↦ rw e (memory_guard_run-exits w job limit fraction done total readings s)
      | inr e ↦ rw e ((fire-Exits w job limit done total used).at s)
    ]
