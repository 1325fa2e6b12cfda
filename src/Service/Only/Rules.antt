-- ===== src/Service/Only/Rules.antt =====
-- The rules that `search` uses to show which calls an action makes.
use parser_os_worker.Base.{Bool, Option, String, refl, true, ℕ, ◌≡◌}
use parser_os_worker.Json.{Fields, Json}
use parser_os_worker.Service.{
  Body, Call, Host, SimpleJob, build_envelope, build_sow, compile_project, compile_trace,
  create_queue, delete_blob, delete_message, download, download_from, exists, full_result,
  list_blobs, post, prepare, queue_depth, receive, retrain_spans, retrain_types, run,
  select_artifacts, send_keepalive, send_message, sheet_renders, stage_reports, to_scope_process,
  update_message, upload, write_back_ml, write_c3_sow,
}
use parser_os_worker.Service.Action.{ask}
use parser_os_worker.Service.Only.{
  Only, Only-ask, Only-attempt, Only-bind, Only-catch, Only-exit, Only-finally, Only-gets, Only-if,
  Only-iso_now, Only-modify, Only-option, Only-pure, Only-raise, Only-replied,
}

-- `Only-ask` at each call, where the type of the answer is known.
module _ {p : Call → Bool} (w : Host) where
  pub Only-download : (path : String) → p (download path) ≡ true → Only p (ask w (download path))
  Only-download path h = Only-ask w (download path) h

  pub Only-download_from :
      (c path : String) → p (download_from c path) ≡ true → Only p (ask w (download_from c path))
  Only-download_from c path h = Only-ask w (download_from c path) h

  pub Only-upload :
      (path : String) (b : Body) (e : Option String)
      → p (upload path b e) ≡ true
      → Only p (ask w (upload path b e))
  Only-upload path b e h = Only-ask w (upload path b e) h

  pub Only-delete_blob :
      (path : String) → p (delete_blob path) ≡ true → Only p (ask w (delete_blob path))
  Only-delete_blob path h = Only-ask w (delete_blob path) h

  pub Only-exists : (path : String) → p (exists path) ≡ true → Only p (ask w (exists path))
  Only-exists path h = Only-ask w (exists path) h

  pub Only-list_blobs :
      (path : String) → p (list_blobs path) ≡ true → Only p (ask w (list_blobs path))
  Only-list_blobs path h = Only-ask w (list_blobs path) h

  pub Only-create_queue : (q : String) → p (create_queue q) ≡ true → Only p (ask w (create_queue q))
  Only-create_queue q h = Only-ask w (create_queue q) h

  pub Only-receive : (q : String) → p (receive q) ≡ true → Only p (ask w (receive q))
  Only-receive q h = Only-ask w (receive q) h

  pub Only-update_message :
      (q i : String) (x : Option String) (v : ℕ)
      → p (update_message q i x v) ≡ true
      → Only p (ask w (update_message q i x v))
  Only-update_message q i x v h = Only-ask w (update_message q i x v) h

  pub Only-delete_message :
      (q i : String) (x : Option String)
      → p (delete_message q i x) ≡ true
      → Only p (ask w (delete_message q i x))
  Only-delete_message q i x h = Only-ask w (delete_message q i x) h

  pub Only-send_message :
      (q : String) (j : Json) → p (send_message q j) ≡ true → Only p (ask w (send_message q j))
  Only-send_message q j h = Only-ask w (send_message q j) h

  pub Only-send_keepalive :
      (q : String) (j : Json) (t : ℕ)
      → p (send_keepalive q j t) ≡ true
      → Only p (ask w (send_keepalive q j t))
  Only-send_keepalive q j t h = Only-ask w (send_keepalive q j t) h

  pub Only-queue_depth : (q : String) → p (queue_depth q) ≡ true → Only p (ask w (queue_depth q))
  Only-queue_depth q h = Only-ask w (queue_depth q) h

  pub Only-post : (u : String) (j : Json) → p (post u j) ≡ true → Only p (ask w (post u j))
  Only-post u j h = Only-ask w (post u j) h

  pub Only-prepare :
      (job : SimpleJob) → p (run job prepare) ≡ true → Only p (ask w (run job prepare))
  Only-prepare job h = Only-ask w (run job prepare) h

  pub Only-select_artifacts :
      (job : SimpleJob) (m : Json)
      → p (run job (select_artifacts m)) ≡ true
      → Only p (ask w (run job (select_artifacts m)))
  Only-select_artifacts job m h = Only-ask w (run job (select_artifacts m)) h

  pub Only-stage_reports :
      (job : SimpleJob) → p (run job stage_reports) ≡ true → Only p (ask w (run job stage_reports))
  Only-stage_reports job h = Only-ask w (run job stage_reports) h

  pub Only-compile_project :
      (job : SimpleJob) (o : Json)
      → p (run job (compile_project o)) ≡ true
      → Only p (ask w (run job (compile_project o)))
  Only-compile_project job o h = Only-ask w (run job (compile_project o)) h

  pub Only-build_envelope :
      (job : SimpleJob)
      → p (run job build_envelope) ≡ true
      → Only p (ask w (run job build_envelope))
  Only-build_envelope job h = Only-ask w (run job build_envelope) h

  pub Only-to_scope_process :
      (job : SimpleJob)
      → p (run job to_scope_process) ≡ true
      → Only p (ask w (run job to_scope_process))
  Only-to_scope_process job h = Only-ask w (run job to_scope_process) h

  pub Only-sheet_renders :
      (job : SimpleJob) → p (run job sheet_renders) ≡ true → Only p (ask w (run job sheet_renders))
  Only-sheet_renders job h = Only-ask w (run job sheet_renders) h

  pub Only-build_sow :
      (job : SimpleJob) → p (run job build_sow) ≡ true → Only p (ask w (run job build_sow))
  Only-build_sow job h = Only-ask w (run job build_sow) h

  pub Only-compile_trace :
      (job : SimpleJob) → p (run job compile_trace) ≡ true → Only p (ask w (run job compile_trace))
  Only-compile_trace job h = Only-ask w (run job compile_trace) h

  pub Only-full_result :
      (job : SimpleJob) → p (run job full_result) ≡ true → Only p (ask w (run job full_result))
  Only-full_result job h = Only-ask w (run job full_result) h

  pub Only-retrain_types :
      (job : SimpleJob) → p (run job retrain_types) ≡ true → Only p (ask w (run job retrain_types))
  Only-retrain_types job h = Only-ask w (run job retrain_types) h

  pub Only-retrain_spans :
      (job : SimpleJob) → p (run job retrain_spans) ≡ true → Only p (ask w (run job retrain_spans))
  Only-retrain_spans job h = Only-ask w (run job retrain_spans) h

  pub Only-write_back_ml :
      (job : SimpleJob) → p (run job write_back_ml) ≡ true → Only p (ask w (run job write_back_ml))
  Only-write_back_ml job h = Only-ask w (run job write_back_ml) h

  pub Only-write_c3_sow :
      (job : SimpleJob) (e : Fields)
      → p (run job (write_c3_sow e)) ≡ true
      → Only p (ask w (run job (write_c3_sow e)))
  Only-write_c3_sow job e h = Only-ask w (run job (write_c3_sow e)) h

pub ruleset only_rules = (
  Only-pure, Only-raise, Only-exit, Only-gets, Only-if, Only-catch, Only-finally, Only-attempt,
  Only-modify, Only-iso_now, Only-bind, Only-option, Only-replied, refl, Only-download,
  Only-download_from, Only-upload, Only-delete_blob, Only-exists, Only-list_blobs,
  Only-create_queue, Only-receive, Only-update_message, Only-delete_message, Only-send_message,
  Only-send_keepalive, Only-queue_depth, Only-post, Only-prepare, Only-select_artifacts,
  Only-stage_reports, Only-compile_project, Only-build_envelope, Only-to_scope_process,
  Only-sheet_renders, Only-build_sow, Only-compile_trace, Only-full_result, Only-retrain_types,
  Only-retrain_spans, Only-write_back_ml, Only-write_c3_sow,
)
