-- ===== src/Heartbeat.antt =====
-- `_ProgressHeartbeat`: a thread that re-writes the progress document, and a `stop()` that takes the
-- lock which a tick writes under. The two threads interleave, so their steps are a relation.
pub mod Order
use parser_os_worker.Base.{Bool, List, [], false, true, ◌∷◌, ◌≡◌, ◌≢◌}

-- where the ticking thread stands: waiting, before the lock, holding it, or returned
pub data Ticker : Type 0 where
  waiting wanting holding returned : Ticker

-- where the caller of stop() stands: before, holding the lock, or returned from it
pub data Stopper : Type 0 where
  running stopping stopped : Stopper

-- Who writes the progress document: a tick, or the worker after the heartbeat.
pub data Writer : Type 0 where
  tick worker : Writer

-- `flag` is the stop Event, `writes` what was written, the newest first.
pub record Heartbeat : Type 0 where
  pub ticker : Ticker
  pub stopper : Stopper
  pub flag : Bool
  pub writes : List Writer

abbrev pub initial : Heartbeat
initial = record { ticker = waiting; stopper = running; flag = false; writes = [] }

-- Nobody holds the lock.
abbrev pub IsFree : Heartbeat → Type 0
IsFree h = (h.ticker ≢ holding) × (h.stopper ≢ stopping)

-- One step of either thread. The wait of a tick may end by its timeout while the flag is being set.
pub data Step (h : Heartbeat) : Heartbeat → Type 0 where
  tick_due : h.ticker ≡ waiting → h.flag ≡ false → Step h (record h { ticker = wanting })
  woken : h.ticker ≡ waiting → h.flag ≡ true → Step h (record h { ticker = returned })
  acquire : h.ticker ≡ wanting → IsFree h → Step h (record h { ticker = holding })
  leave : h.ticker ≡ holding → h.flag ≡ true → Step h (record h { ticker = returned })
  write :
      h.ticker ≡ holding
      → h.flag ≡ false
      → Step h (record h { ticker = waiting; writes = tick ∷ h.writes })
  stop_enter : h.stopper ≡ running → IsFree h → Step h (record h { stopper = stopping })
  stop_leave : h.stopper ≡ stopping → Step h (record h { stopper = stopped; flag = true })
  report : h.stopper ≡ stopped → Step h (record h { writes = worker ∷ h.writes })

pub data Steps (h : Heartbeat) : Heartbeat → Type 0 where
  here : Steps h h
  next : {g k : Heartbeat} → Steps h g → Step g k → Steps h k
