-- ===== src/Budget/Bounds.antt =====
-- The limits of a compile's wall-clock budget.

use parser_os_worker.Base.{arith, ◌*◌, ◌≡◌, ◌≤◌}
use parser_os_worker.Budget.{budget_ceiling, budget_floor, compile_budget, document_count}
use parser_os_worker.Json.{Json}
use parser_os_worker.Service.{Config}

-- The budget of any manifest, malformed ones included, lies between the floor and the ceiling, and it is the floor
-- where the fraction of the lease is no longer than the floor.
pub compile_budget-bounds :
    (c : Config) (manifest : Json)
    → (budget_floor c ≤ compile_budget c manifest)
      × (compile_budget c manifest ≤ budget_ceiling c)
      × (c.lease_max_sec * c.lease_fraction ≤ budget_floor c
          → compile_budget c manifest ≡ budget_floor c)
unfolding compile_budget budget_ceiling
compile_budget-bounds c manifest = (omega arith, omega arith, λ h. omega arith)

-- A manifest with at least as many documents never has a smaller budget.
pub compile_budget-monotone :
    (c : Config) (m n : Json)
    → document_count m ≤ document_count n
    → compile_budget c m ≤ compile_budget c n
unfolding compile_budget
compile_budget-monotone c m n h = grind arith
