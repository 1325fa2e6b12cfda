-- ===== src/Compile.antt =====
-- `_do_compile`, with `_upload_envelope`, `_upload_atoms` and `_upload_sheet_renders`: which
-- documents a compile reads and writes, and in which order. The work of the packages (parser-os, the
-- envelope, the projector, sowsmith) is `run`.
pub mod Effects
pub mod Order
pub mod Stays
use Prim.Native.Char.{code}
use parser_os_worker.Active.{mark_compile_active}
use parser_os_worker.Atoms.Document.{atoms_payload}
use parser_os_worker.Atoms.Document.Counts.{number}
use parser_os_worker.Base.{
  List, Option, String, [], get_or, if◌then◌else◌, length, maybe, none, some, true, ℕ, ◌*◌, ◌+◌,
  ◌<>◌, ◌==◌, ◌∷◌,
}
use parser_os_worker.Dedup.{content_hashes, fingerprint}
use parser_os_worker.Download.{download_artifacts}
use parser_os_worker.Json.{Fields, Json, arr, fields, nat, nil, null, num, obj, optional, put, str}
use parser_os_worker.Message.{JobMessage}
use parser_os_worker.Paths.{idempotency_blob_path, latest_path, progress_blob_path}
use parser_os_worker.Service.{
  CompileResult, Host, StageReport, Stages, build_envelope, build_sow, compile_project,
  compile_trace, document, full_result, plain, prepare, run, select_artifacts, sheet_renders,
  stage_reports, to_scope_process, upload,
}
use parser_os_worker.Service.Action.{
  Action, ask, attempt, catch, gets, iso_now, modify, pure, ◌>>=◌, ◌>>◌,
}
use parser_os_worker.Status.{write_status}
use parser_os_worker.Temp.{assert_tmp_has_space, scrub_stale}

module _ (w : Host) (job : JobMessage) where
  abbrev numbers : ℕ → Json
  numbers n = num (nat n)

  pub upload_progress : (String → ℕ → Fields) → Action (Unit {0})
  upload_progress payload = do
    now ← iso_now w
    ms ← gets (λ s. w.elapsed_ms s.log)
    attempt (ask w (upload (progress_blob_path job.deal_id) (document (obj (payload now ms))) none))

  -- the document that is put there before the compile starts
  pub seed_payload : String → String → ℕ → Fields
  seed_payload started now ms = fields (
      ("compile_id", str job.compile_id)
      ∷ ("deal_id", str job.deal_id)
      ∷ ("status", str "starting")
      ∷ ("current_stage", null)
      ∷ ("stages", arr nil)
      ∷ ("stage_count_done", numbers 0)
      ∷ ("stage_count_total_estimate", numbers 14)
      ∷ ("started_at", str started)
      ∷ ("updated_at", str now)
      ∷ ("elapsed_ms", numbers 0)
      ∷ ("worker_sha", str w.worker_sha)
      ∷ ("parser_os_sha", str w.parser_os_sha)
      ∷ ("triggered_by", optional job.triggered_by)
      ∷ ("trigger_kind", optional job.trigger_kind)
      ∷ [])

  stage_payload : String → StageReport → String → ℕ → Fields
  stage_payload started r now ms = fields (
      ("compile_id", str job.compile_id)
      ∷ ("deal_id", str job.deal_id)
      ∷ ("status", str "running")
      ∷ ("current_stage", str r.stage)
      ∷ ("stage_phase", str r.phase)
      ∷ ("stages", r.stages.listed)
      ∷ ("stage_count_done", numbers r.stages.number)
      ∷ ("stage_count_total_estimate", numbers 14)
      ∷ ("started_at", str started)
      ∷ ("updated_at", str now)
      ∷ ("elapsed_ms", numbers ms)
      ∷ ("worker_sha", str w.worker_sha)
      ∷ ("parser_os_sha", str w.parser_os_sha)
      ∷ ("triggered_by", optional job.triggered_by)
      ∷ ("trigger_kind", optional job.trigger_kind)
      ∷ ("stage_items_done", numbers r.items_done)
      ∷ ("stage_items_total", numbers r.items_total)
      ∷ [])

  -- _write_progress, which the two callbacks and the heartbeat call
  pub write_progress : String → StageReport → Action (Unit {0})
  unfolding upload_progress stage_payload
  write_progress started r = do
    upload_progress (stage_payload started r)
    mark_compile_active w job.job (str r.stage)

  unfoldable pub write_reports : String → List StageReport → Action (Unit {0})
  unfolding write_progress
  write_reports started [] = pure tt
  write_reports started (r ∷ rs) = do write_progress started r; write_reports started rs

  end_payload : String → String → Json → Stages → ℕ → String → ℕ → Fields
  end_payload started status stage stages estimate now ms = fields (
      ("compile_id", str job.compile_id)
      ∷ ("deal_id", str job.deal_id)
      ∷ ("status", str status)
      ∷ ("current_stage", stage)
      ∷ ("stages", stages.listed)
      ∷ ("stage_count_done", numbers stages.number)
      ∷ ("stage_count_total_estimate", numbers estimate)
      ∷ ("started_at", str started)
      ∷ ("updated_at", str now)
      ∷ ("elapsed_ms", numbers ms)
      ∷ ("worker_sha", str w.worker_sha)
      ∷ ("parser_os_sha", str w.parser_os_sha)
      ∷ [])

  -- _write_compile_progress
  unfoldable pub write_compile_progress : String → String → Json → Stages → ℕ → Action (Unit {0})
  unfolding upload_progress end_payload
  write_compile_progress started status stage stages estimate =
      upload_progress (end_payload started status stage stages estimate)

  pub envelope_path : String
  envelope_path = latest_path job.deal_id "envelope.json"

  -- _upload_envelope
  unfoldable pub upload_envelope : Fields → Action String
  unfolding envelope_path
  upload_envelope envelope = do
    ask w (upload envelope_path (document (obj envelope)) none)
    pure envelope_path

  -- one drawing; one that cannot be read is passed over
  upload_renders : List (String × Option String) → Action (Unit {0})
  upload_renders [] = pure tt
  upload_renders ((stem, none) ∷ rest) = upload_renders rest
  upload_renders ((stem, some body) ∷ rest) = do
    ask w (
        upload ("deals/" <> job.deal_id <> "/parser-os/latest/sheets/" <> stem <> ".svg")
          (plain body) none)
    upload_renders rest

  -- _upload_sheet_renders
  unfoldable pub upload_sheet_renders : Action (Unit {0})
  unfolding upload_renders
  upload_sheet_renders =
      attempt (do renders ← ask w (run job.job sheet_renders); upload_renders renders)

  -- the change-detection fingerprint of the compile
  unfoldable pub write_fingerprint : Json → Action (Unit {0})
  write_fingerprint manifest = maybe (content_hashes w manifest) (pure tt) λ hashes. attempt (do
    now ← iso_now w
    ask w (
        upload (idempotency_blob_path job.deal_id)
          (document (obj (fingerprint w hashes manifest job.compile_id now))) none))

  -- _upload_atoms
  unfoldable pub upload_atoms : CompileResult → Action String
  unfolding atoms_payload
  upload_atoms result = do
    now ← iso_now w
    let payload =
        atoms_payload w.repr job.compile_id job.deal_id now (w.round_hundredth result.elapsed)
          result.output
    let path = "deals/" <> job.deal_id <> "/parser-os/latest/atoms.json"
    ask w (upload path (document (obj payload)) none)
    attempt (do
      full ← ask w (run job.job full_result)
      maybe full (pure tt) λ r.
          ask w
            (upload ("deals/" <> job.deal_id <> "/parser-os/latest/result.json") (document r) none))
    pure path

  -- the sidecars 5b to 5e, each of which may fail by itself
  unfoldable pub upload_sidecars : Json → CompileResult → Action (Json × Json)
  unfolding upload_atoms
  upload_sidecars scope result = do
    attempt (ask w (upload (latest_path job.deal_id "scope-process-v1.json") (document scope) none))
    sow_version ←
        catch
          (do
            sow ← ask w (run job.job build_sow)
            ask w (upload (latest_path job.deal_id "SOW_DRAFT.md") (plain sow) none)
            pure (str "SOW_VERSION"))
          (λ _. pure null)
    attempt (do
      trace ← ask w (run job.job compile_trace)
      ask w (upload (latest_path job.deal_id "compile-trace.json") (document trace) none))
    atoms_path ← catch (do path ← upload_atoms result; pure (str path)) (λ _. pure null)
    pure (sow_version, atoms_path)

  result_summary : CompileResult → String → Json × Json → ℕ → Fields
  result_summary result env_path (sow_version, atoms_path) calls = fields (
      ("envelope_path", str env_path)
      ∷ ("atoms_path", atoms_path)
      ∷ ("entity_count", numbers result.output.entities)
      ∷ ("atom_count", numbers (length result.output.atoms))
      ∷ ("elapsed_sec", result.elapsed)
      ∷ ("sow_version", sow_version)
      ∷ ("llm_call_count", numbers calls)
      ∷ [])

  abbrev no_stages : Stages
  no_stages = record { listed = arr nil; number = 0 }

  -- n or d, for a number
  abbrev or_number : ℕ → ℕ → ℕ
  or_number n d = if n == 0 then d else n

  -- from the end of compile_project to the end
  deliver : Json → String → CompileResult → Action Fields
  unfolding result_summary
  deliver manifest started result = do
    let stages = get_or no_stages result.trace_stages
    let estimate = if stages.number == 0 then 15 else stages.number + 1
    write_compile_progress started "running" (str "projection") stages estimate
    write_status w job.job "running" (
        fields (
          ("stage", str "projection")
          ∷ ("percent_complete", numbers 85)
          ∷ ("entity_count", numbers result.output.entities)
          ∷ ("atom_count", numbers (length result.output.atoms))
          ∷ []))
    envelope ← ask w (run job.job build_envelope)
    scope ← ask w (run job.job to_scope_process)
    upload_sheet_renders
    env_path ← upload_envelope (put "compile_id" (str job.compile_id) envelope)
    write_compile_progress started "done" null stages (or_number stages.number 14)
    write_fingerprint manifest
    sidecars ← upload_sidecars scope result
    calls ← gets (λ s. w.llm_calls s.log)
    pure (result_summary result env_path sidecars calls)

  -- _do_compile; its `finally` restores patched functions and removes the work directory
  unfoldable pub do_compile : Json → Action Fields
  unfolding deliver seed_payload upload_progress
  do_compile manifest = do
    scrub_stale w
    assert_tmp_has_space w (512 * 1024 * 1024)
    ask w (run job.job prepare)
    artifacts ← ask w (run job.job (select_artifacts manifest))
    download_artifacts w artifacts
    write_status w job.job "running"
        (fields (("stage", str "compile") ∷ ("percent_complete", numbers 10) ∷ []))
    started ← iso_now w
    modify (λ s. record s { inflight = record s.inflight { progress_stop = true } })
    upload_progress (seed_payload started)
    reports ← ask w (run job.job stage_reports)
    write_reports started reports
    result ← ask w (run job.job (compile_project job.compile_options))
    deliver manifest started result
