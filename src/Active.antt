-- ===== src/Active.antt =====
-- The index of running compiles: `_mark_compile_active`, `_clear_compile_active`.
pub mod Effects
use parser_os_worker.Base.{String, [], none, ◌∷◌}
use parser_os_worker.Json.{Fields, Json, fields, obj, str}
use parser_os_worker.Paths.{active_index_path}
use parser_os_worker.Service.{Host, SimpleJob, delete_blob, document, upload}
use parser_os_worker.Service.Action.{Action, ask, attempt, gets, iso_now, ◌>>=◌, ◌>>◌}

module _ (w : Host) where
  unfoldable pub marker : SimpleJob → Json → String → Json → Fields
  marker job stage now keepalive = fields (
      ("compile_id", str job.compile_id)
      ∷ ("deal_id", str job.deal_id)
      ∷ ("stage", stage)
      ∷ ("updated_at", str now)
      ∷ ("worker_sha", str w.worker_sha)
      ∷ ("replica", str w.replica)
      ∷ ("boot_id", str w.boot_id)
      ∷ ("keepalive", keepalive)
      ∷ [])

  -- _mark_compile_active
  unfoldable pub mark_compile_active : SimpleJob → Json → Action (Unit {0})
  unfolding marker
  mark_compile_active job stage = do
    now ← iso_now w
    keepalive ← gets (λ s. s.inflight.keepalive)
    attempt (
        ask w (
          upload (active_index_path job.compile_id)
            (document (obj (marker job stage now keepalive))) none))

  -- _clear_compile_active
  unfoldable pub clear_compile_active : SimpleJob → Action (Unit {0})
  clear_compile_active job = attempt (ask w (delete_blob (active_index_path job.compile_id)))
