-- ===== src/Cancel.antt =====
-- `_CancelWatcher`: a compile that somebody has asked to stop.
pub mod Exits
use parser_os_worker.Active.{clear_compile_active}
use parser_os_worker.Base.{
  Bool, Option, String, [], if◌then◌else◌, is_empty, maybe, none, some, str_eq, strip, suc, zero, ℕ,
  ◌||◌, ◌∷◌,
}
use parser_os_worker.Documents.{read_dict}
use parser_os_worker.Json.{
  Fields, arr, fields, get, nil, null, obj, optional, or_json, str, text_of,
}
use parser_os_worker.Keepalive.{safe_delete}
use parser_os_worker.Message.{JobMessage}
use parser_os_worker.Paths.{cancel_blob_path, progress_blob_path}
use parser_os_worker.Service.{Host, Message, SimpleJob, delete_blob, document, upload}
use parser_os_worker.Service.Action.{
  Action, ask, attempt, exit, iso_now, modify, no_inflight, pure, ◌>>=◌, ◌>>◌,
}
use parser_os_worker.Status.{write_status}

module _ (w : Host) where
  -- whether a request names this compile, or none at all
  unfoldable pub is_for : SimpleJob → Fields → Bool
  is_for job doc =
      let wanted = strip (text_of w.repr (or_json (get "compile_id" doc) (str ""))) in
      is_empty wanted || str_eq wanted job.compile_id

  wanted_for : SimpleJob → Option Fields → Option Fields
  unfolding is_for
  wanted_for job none = none
  wanted_for job (some doc) = if is_for job doc then some doc else none

  -- _request
  pub cancel_request : SimpleJob → Action (Option Fields)
  unfolding wanted_for
  cancel_request job = do
    doc ← read_dict w (cancel_blob_path job.deal_id)
    pure (wanted_for job doc)

  cancelled_payload : JobMessage → String → String → String → Fields
  cancelled_payload job started by now = fields (
      ("compile_id", str job.compile_id)
      ∷ ("deal_id", str job.deal_id)
      ∷ ("status", str "cancelled")
      ∷ ("current_stage", null)
      ∷ ("stages", arr nil)
      ∷ ("started_at", str started)
      ∷ ("updated_at", str now)
      ∷ ("cancelled_by", str by)
      ∷ ("triggered_by", optional job.triggered_by)
      ∷ ("worker_sha", str w.worker_sha)
      ∷ ("parser_os_sha", str w.parser_os_sha)
      ∷ [])

  -- the three things that it does before exiting, each best effort
  pub cancel_fire : JobMessage → String → Message → String → Fields → Action (Unit {0})
  unfolding cancelled_payload
  cancel_fire job queue msg started req = do
    let by = text_of w.repr (or_json (get "requested_by" req) (str "?"))
    attempt (
        write_status w job.job "cancelled"
          (fields (("stage", str "cancelled") ∷ ("cancelled_by", str by) ∷ [])))
    now ← iso_now w
    attempt (
        ask w (
          upload (progress_blob_path job.deal_id)
            (document (obj (cancelled_payload job started by now))) none))
    attempt (safe_delete w queue msg)
    attempt (ask w (delete_blob (cancel_blob_path job.deal_id)))
    attempt (clear_compile_active w job.job)
    modify (λ s. record s { inflight = no_inflight })
    exit 0

  -- _run: one round for each wait that timed out
  pub cancel_run : ℕ → JobMessage → String → Message → String → Action (Unit {0})
  cancel_run zero job queue msg started = pure tt
  cancel_run (suc n) job queue msg started = do
    req ← cancel_request job.job
    maybe req (cancel_run n job queue msg started) (cancel_fire job queue msg started)
