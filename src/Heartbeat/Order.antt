-- ===== src/Heartbeat/Order.antt =====
-- The order of the writes of the progress document.

use parser_os_worker.Base.{Bool, List, [], false, true, ◌∷◌, ◌≡◌, ◌≢◌}
use parser_os_worker.Heartbeat.{Heartbeat, Stopper, Writer, stopped, tick, worker}

-- Ticks only, the newest first.
ticks_only : List Writer → Bool
ticks_only [] = true
ticks_only (tick ∷ l) = ticks_only l
ticks_only (worker ∷ l) = false

-- No tick is newer than a report of the worker.
pub reported_last : List Writer → Bool
unfolding ticks_only
reported_last [] = true
reported_last (tick ∷ l) = ticks_only l
reported_last (worker ∷ l) = reported_last l

abbrev Before : Heartbeat → Type 0
Before h = (h.stopper ≢ stopped) × (h.flag ≡ false) × (ticks_only h.writes ≡ true)

abbrev After : Heartbeat → Type 0
After h = (h.stopper ≡ stopped) × (h.flag ≡ true) × (reported_last h.writes ≡ true)

is_stopped : Stopper → Bool
is_stopped stopped = true
is_stopped _ = false
