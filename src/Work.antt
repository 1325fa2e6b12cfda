-- ===== src/Work.antt =====
-- The work of one job in `main`: from "Mark running" to the exit code, with what follows a compile and
-- what follows a failure.
use parser_os_worker.Active.{clear_compile_active, mark_compile_active}
use parser_os_worker.Base.{
  Bool, String, [], contains_codes, cut, false, if◌then◌else◌, lower, none, some, str_eq, true, ℕ,
  ◌&&◌, ◌<>◌, ◌||◌, ◌∷◌,
}
use parser_os_worker.Budget.{document_length}
use parser_os_worker.Compile.{do_compile}
use parser_os_worker.Dedup.{unchanged_since_last_compile}
use parser_os_worker.Download.{download_manifest}
use parser_os_worker.Json.{Fields, Json, fields, get, nat, null, num, obj, str}
use parser_os_worker.Keepalive.{delete_keepalive, safe_delete, send_keepalive_message}
use parser_os_worker.Message.{JobMessage}
use parser_os_worker.Notify.{enqueue_brief_gen, trigger_brief_gen_http}
use parser_os_worker.Paths.{progress_blob_path}
use parser_os_worker.Recovery.{lift}
use parser_os_worker.Service.{
  Exc, Host, Message, SimpleJob, document, retrain_spans, retrain_types, run, upload, write_back_ml,
}
use parser_os_worker.Service.Action.{
  Action, Inflight, ask, attempt, catch, finally, gets, iso_now, modify, no_inflight, pure, ◌>>=◌,
  ◌>>◌,
}
use parser_os_worker.Status.{write_status}

abbrev pub num_of : ℕ → Json
num_of n = num (nat n)

-- "blobnotfound" and the like: a deal whose blobs are gone
unfoldable pub is_permanent : Exc → Bool
is_permanent e =
    let text = lower (e.kind <> ": " <> e.message) in
    contains_codes text "blobnotfound"
    || contains_codes text "the specified blob does not exist"
    || (contains_codes (lower e.kind) "notfound" && contains_codes text "blob")

-- the table of the errors of an earlier attempt, as the status has them and with a capital
unfoldable pub earlier_error : String → String
earlier_error stage =
    if str_eq stage "timeout"
    then "compile exceeded COMPILE_TIMEOUT_SEC on an earlier attempt"
    else if str_eq stage "killed"
    then "the worker was killed mid-run on an earlier attempt"
    else "the compile ran out of memory on an earlier attempt"

unfoldable pub earlier_error_capital : String → String
earlier_error_capital stage =
    if str_eq stage "timeout"
    then "Compile exceeded COMPILE_TIMEOUT_SEC on an earlier attempt"
    else if str_eq stage "killed"
    then "The worker was killed mid-run on an earlier attempt"
    else "The compile ran out of memory on an earlier attempt"

unfoldable pub earlier_reason : String → String
earlier_reason stage = if str_eq stage "timeout" then "timed_out_before" else stage <> "_before"

module _ (w : Host) where
  unfoldable pub set_inflight : (Inflight → Inflight) → Action (Unit {0})
  set_inflight f = modify (λ s. record s { inflight = f s.inflight })

  unfoldable pub clear_inflight : Action (Unit {0})
  clear_inflight = modify (λ s. record s { inflight = no_inflight })

  -- `finally` around the compile: everything that was started is stopped
  unfoldable pub cleanup : SimpleJob → Action (Unit {0})
  unfolding set_inflight
  cleanup job = do
    set_inflight (λ i. record i { progress_stop = false })
    clear_compile_active w job
    keepalive ← gets (λ s. s.inflight.keepalive)
    set_inflight (λ i. record i { keepalive = null })
    delete_keepalive w keepalive false
    set_inflight (λ i. record i { renewer = false })

  unfoldable pub retrain : SimpleJob → Action (Unit {0})
  retrain job =
      if w.retrain_enabled
      then (do
        attempt (ask w (run job retrain_types))
        attempt (ask w (run job retrain_spans))
        attempt (ask w (run job write_back_ml)))
      else pure tt

  pub completed_extra : Fields → Fields
  completed_extra result = fields (
      ("stage", str "done")
      ∷ ("percent_complete", num_of 100)
      ∷ ("entity_count", get "entity_count" result)
      ∷ ("atom_count", get "atom_count" result)
      ∷ ("elapsed_sec", get "elapsed_sec" result)
      ∷ ("envelope_path", get "envelope_path" result)
      ∷ [])

  -- what follows a compile that returned
  unfoldable pub finish : String → Message → SimpleJob → Fields → Action ℕ
  unfolding completed_extra retrain
  finish queue msg job result = do
    write_status w job "completed" (completed_extra result)
    attempt (enqueue_brief_gen w job)
    attempt (trigger_brief_gen_http w job)
    safe_delete w queue msg
    clear_inflight
    retrain job
    pure 0

  -- the renewer, the watchdog, the guards, and the compile between them
  unfoldable pub guarded_compile : JobMessage → Json → Action Fields
  unfolding set_inflight cleanup
  guarded_compile job manifest = do
    set_inflight (λ i. record i { renewer = true })
    lift w (document_length manifest)  -- in the arguments of a log line, after the renewer starts
    keepalive ← send_keepalive_message w job.job
    set_inflight (λ i. record i { keepalive = keepalive })
    finally (do_compile w job manifest) (cleanup job.job)

  unfoldable pub skip_unchanged : String → Message → SimpleJob → Action ℕ
  skip_unchanged queue msg job = do
    write_status w job "completed"
        (fields (("stage", str "skipped_unchanged") ∷ ("percent_complete", num_of 100) ∷ []))
    safe_delete w queue msg
    pure 0

  -- whether this compile would be redundant
  unfoldable pub is_redundant : JobMessage → Json → Action Bool
  is_redundant job manifest =
      if job.force then pure false else unchanged_since_last_compile w job.deal_id manifest

  -- the body of the outer try
  unfoldable pub work : String → Message → JobMessage → Action ℕ
  work queue msg job = do
    manifest ← download_manifest w job.manifest_blob_url
    redundant ← is_redundant job manifest
    if redundant
        then skip_unchanged queue msg job.job
        else do result ← guarded_compile job manifest; finish queue msg job.job result

  pub failed_progress : SimpleJob → Exc → String → Fields
  failed_progress job e now = fields (
      ("compile_id", str job.compile_id)
      ∷ ("deal_id", str job.deal_id)
      ∷ ("status", str "failed")
      ∷ ("current_stage", null)
      ∷ ("updated_at", str now)
      ∷ ("error", str (cut 500 (e.kind <> ": " <> e.message)))
      ∷ ("worker_sha", str w.worker_sha)
      ∷ ("parser_os_sha", str w.parser_os_sha)
      ∷ [])

  pub exception_extra : Exc → Fields
  exception_extra e = fields (
      ("stage", str (if is_permanent e then "dead_deal" else "exception"))
      ∷ ("error", str (e.kind <> ": " <> e.message))
      ∷ ("traceback", str (cut 4000 (w.traceback e)))
      ∷ [])

  -- the outer except
  unfoldable pub on_failure : String → Message → SimpleJob → Exc → Action ℕ
  unfolding failed_progress exception_extra
  on_failure queue msg job e = do
    now ← iso_now w
    attempt (
        ask w (
          upload (progress_blob_path job.deal_id) (document (obj (failed_progress job e now)))
            none))
    write_status w job "failed" (exception_extra e)
    if is_permanent e then (do attempt (safe_delete w queue msg); pure 2) else pure 1

  -- from "Mark running" to the end
  unfoldable pub run_job : String → Message → JobMessage → Action ℕ
  unfolding set_inflight
  run_job queue msg job = do
    set_inflight (λ i. record i { job = some job.job })
    write_status w job.job "running"
        (fields (("stage", str "starting") ∷ ("percent_complete", num_of 0) ∷ []))
    mark_compile_active w job.job (str "starting")
    catch (work queue msg job) (on_failure queue msg job.job)
