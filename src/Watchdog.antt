-- ===== src/Watchdog.antt =====
-- The threads that end a compile: `_CompileWatchdog` and `_MemoryGuard`. Each runs beside the
-- compile; what it does between two waits is an action of the process.
pub mod Exits
use parser_os_worker.Active.{clear_compile_active}
use parser_os_worker.Base.{
  Bool, List, Option, String, [], false, get_or, if◌then◌else◌, ltb, none, some, true, ℕ, ◌&&◌, ◌*◌,
  ◌/◌, ◌<>◌, ◌==◌, ◌^◌, ◌∷◌,
}
use parser_os_worker.Json.{Fields, Json, end, fields, get, str, text_of, truthy}
use parser_os_worker.Json.Numbers.{grouped}
use parser_os_worker.Keepalive.{delete_keepalive}
use parser_os_worker.Progress.{fail_progress_if_ours, read_progress}
use parser_os_worker.Service.{Host, SimpleJob}
use parser_os_worker.Service.Action.{Action, attempt, exit, gets, pure, ◌>>=◌, ◌>>◌}
use parser_os_worker.Status.{write_status}

module _ (w : Host) where
  watchdog_status : ℕ → Fields
  watchdog_status budget = fields (
      ("stage", str "timeout")
      ∷ ("error", str ("compile exceeded COMPILE_TIMEOUT_SEC=" <> w.format_g budget <> "s"))
      ∷ [])

  -- out of the in-flight queue and out of the index, before the process ends
  pub withdraw : SimpleJob → Action (Unit {0})
  withdraw job = attempt (do
    keepalive ← gets (λ s. s.inflight.keepalive)
    delete_keepalive w keepalive false
    clear_compile_active w job)

  -- _CompileWatchdog._run after its wait: `finished` is what the wait answered
  pub watchdog_run : SimpleJob → ℕ → Bool → Action (Unit {0})
  unfolding watchdog_status withdraw
  watchdog_run job budget true = pure tt
  watchdog_run job budget false = do
    attempt (write_status w job "failed" (watchdog_status budget))
    fail_progress_if_ours w job "timeout"
        ("The parse ran past its "
          <> w.format_whole (budget / 60)
          <> "-minute limit and was stopped.")
        "failed"
    withdraw job
    exit 75

  -- _CompileWatchdog.start: whether there is a thread at all
  unfoldable pub watchdog_starts : ℕ → Bool
  watchdog_starts budget = ltb 0 budget

  -- `used < ceiling`, with the fraction in thousandths
  unfoldable pub fits_in : ℕ → ℕ → ℕ → Bool
  fits_in limit fraction used = ltb (1000 * used) (limit * fraction)

  -- _MemoryGuard.start
  unfoldable pub memory_guard_starts : Option ℕ → ℕ → Bool
  memory_guard_starts none fraction = false
  memory_guard_starts (some limit) fraction = ltb 0 limit && ltb 0 fraction

  out_of_memory_text : Json → ℕ → ℕ → ℕ → ℕ → String
  out_of_memory_text stage done total used limit =
      "The parse ran out of memory"
      <> (if truthy stage then " in " <> text_of w.repr stage else "")
      <> (if total == 0 then "" else " at " <> grouped done <> " of " <> grouped total <> " items")
      <> ": "
      <> w.format_tenths (1000 * used / 2 ^ 30)
      <> " GB used of the worker's "
      <> w.format_tenths (1000 * limit / 2 ^ 30)
      <> " GB. Nothing was saved from this run."

  -- what the guard does when the limit is reached; the two numbers are stage_progress()
  pub memory_guard_fire : SimpleJob → ℕ → ℕ → ℕ → ℕ → Action (Unit {0})
  unfolding out_of_memory_text withdraw
  memory_guard_fire job limit done total used = do
    found ← read_progress w job.deal_id
    let stage = get "current_stage" (get_or end found)
    let error = out_of_memory_text stage done total used limit
    attempt (do
      fail_progress_if_ours w job "out_of_memory" error "failed"
      write_status w job "failed"
          (fields (("stage", str "out_of_memory") ∷ ("error", str error) ∷ [])))
    withdraw job
    exit 75

  -- _MemoryGuard._run: one reading for each wait that timed out; the end of the list is `stop()`
  pub memory_guard_run : SimpleJob → ℕ → ℕ → ℕ → ℕ → List ℕ → Action (Unit {0})
  unfolding fits_in memory_guard_fire
  memory_guard_run job limit fraction done total [] = pure tt
  memory_guard_run job limit fraction done total (used ∷ readings) =
      if fits_in limit fraction used
      then memory_guard_run job limit fraction done total readings
      else memory_guard_fire job limit done total used
