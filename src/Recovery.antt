-- ===== src/Recovery.antt =====
-- `recover_dead_runs`: a process that starts fails the runs that a previous boot of its replica
-- left running.
pub mod Effects
pub mod Spares
use parser_os_worker.Active.{clear_compile_active, marker}
use parser_os_worker.Base.{
  Bool, List, Option, String, [], false, get_or, if◌then◌else◌, is_empty, maybe, none, not, some,
  suc, true, ℕ, ◌&&◌, ◌<>◌, ◌∷◌,
}
use parser_os_worker.Documents.{is_text, read_dict}
use parser_os_worker.Json.{Fields, end, fields, get, or_json, str, text_of, truthy}
use parser_os_worker.Keepalive.{delete_keepalive}
use parser_os_worker.Paths.{active_index_prefix}
use parser_os_worker.Progress.{fail_progress_if_ours, killed_run_message, read_progress}
use parser_os_worker.Service.{Host, Reply, SimpleJob, answer, failure, list_blobs}
use parser_os_worker.Service.Action.{Action, ask, catch, pure, raise, ◌>>=◌, ◌>>◌}
use parser_os_worker.Status.{write_status}

module _ (w : Host) where
  -- This replica's marker, of another boot.
  unfoldable pub is_dead_marker : Fields → Bool
  is_dead_marker marker =
      is_text w.replica (get "replica" marker)
      && truthy (get "boot_id" marker)
      && not (is_text w.boot_id (get "boot_id" marker))

  pub marked_job : Fields → Option SimpleJob
  marked_job marker =
      if truthy (get "compile_id" marker) && truthy (get "deal_id" marker)
      then some (record {
        deal_id = text_of w.repr (get "deal_id" marker);
        compile_id = text_of w.repr (get "compile_id" marker);
      })
      else none

  unfoldable pub lift : {A : Type 0} → Reply A → Action A
  lift (answer a) = pure a
  lift (failure e) = raise e

  pub killed_extra : String → Fields
  killed_extra error = fields (("stage", str "killed") ∷ ("error", str error) ∷ [])

  fail_run : Fields → SimpleJob → Action Bool
  unfolding lift killed_extra
  fail_run marker job = do
    found ← read_progress w job.deal_id
    let progress = get_or end found
    error ← lift (
        killed_run_message w (or_json (get "stage" marker) (get "current_stage" progress))
          (get "stage_items_done" progress) (get "stage_items_total" progress))
    fail_progress_if_ours w job "killed" error "failed"
    write_status w job "failed" (killed_extra error)
    delete_keepalive w (get "keepalive" marker) true
    clear_compile_active w job
    pure true

  -- one round of the loop: whether a run was failed
  recover_marker : Option Fields → Action Bool
  unfolding is_dead_marker marked_job fail_run
  recover_marker none = pure false
  recover_marker (some marker) =
      if is_dead_marker marker
      then maybe (marked_job marker) (pure false) (fail_run marker)
      else pure false

  recover_blob : String → Action Bool
  unfolding recover_marker
  recover_blob name =
      if is_empty name then pure false else do found ← read_dict w name; recover_marker found

  pub recover_blobs : List String → Action ℕ
  unfolding recover_blob
  recover_blobs [] = pure 0
  recover_blobs (name ∷ names) = do
    failed_one ← recover_blob name
    n ← recover_blobs names
    pure (if failed_one then suc n else n)

  -- recover_dead_runs
  unfoldable pub recover_dead_runs : Action ℕ
  unfolding recover_blobs
  recover_dead_runs = do
    names ← catch (ask w (list_blobs (active_index_prefix <> "/"))) (λ _. pure [])
    recover_blobs names
