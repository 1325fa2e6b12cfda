-- ===== src/Service/Returns/Rules.antt =====
-- Which calls may raise but do not end the process: all of them. The rules that `search` uses for it,
-- and for actions that return.
use parser_os_worker.Base.{Option, String, ℕ}
use parser_os_worker.Json.{Fields, Json}
use parser_os_worker.Service.{
  Body, Host, SimpleJob, build_envelope, build_sow, compile_project, compile_trace, create_queue,
  delete_blob, delete_message, download, download_from, exists, full_result, list_blobs, post,
  prepare, queue_depth, receive, retrain_spans, retrain_types, run, select_artifacts,
  send_keepalive, send_message, sheet_renders, stage_reports, to_scope_process, update_message,
  upload, write_back_ml, write_c3_sow,
}
use parser_os_worker.Service.Action.{ask}
use parser_os_worker.Service.Returns.{
  Returns-attempt, Returns-bind, Returns-catch, Returns-gets, Returns-if, Returns-iso_now,
  Returns-modify, Returns-option, Returns-pure, Stays, Stays-ask, Stays-attempt, Stays-bind,
  Stays-catch, Stays-gets, Stays-if, Stays-iso_now, Stays-modify, Stays-option, Stays-pure,
  Stays-raise, Stays-replied,
}

-- `Stays-ask` at each call, where the type of the answer is known.
module _ (w : Host) where
  pub Stays-download : (path : String) → Stays (ask w (download path))
  Stays-download path = Stays-ask w (download path)

  pub Stays-download_from : (c path : String) → Stays (ask w (download_from c path))
  Stays-download_from c path = Stays-ask w (download_from c path)

  pub Stays-upload :
      (path : String) (b : Body) (e : Option String) → Stays (ask w (upload path b e))
  Stays-upload path b e = Stays-ask w (upload path b e)

  pub Stays-delete_blob : (path : String) → Stays (ask w (delete_blob path))
  Stays-delete_blob path = Stays-ask w (delete_blob path)

  pub Stays-exists : (path : String) → Stays (ask w (exists path))
  Stays-exists path = Stays-ask w (exists path)

  pub Stays-list_blobs : (path : String) → Stays (ask w (list_blobs path))
  Stays-list_blobs path = Stays-ask w (list_blobs path)

  pub Stays-create_queue : (q : String) → Stays (ask w (create_queue q))
  Stays-create_queue q = Stays-ask w (create_queue q)

  pub Stays-receive : (q : String) → Stays (ask w (receive q))
  Stays-receive q = Stays-ask w (receive q)

  pub Stays-update_message :
      (q i : String) (x : Option String) (v : ℕ) → Stays (ask w (update_message q i x v))
  Stays-update_message q i x v = Stays-ask w (update_message q i x v)

  pub Stays-delete_message :
      (q i : String) (x : Option String) → Stays (ask w (delete_message q i x))
  Stays-delete_message q i x = Stays-ask w (delete_message q i x)

  pub Stays-send_message : (q : String) (j : Json) → Stays (ask w (send_message q j))
  Stays-send_message q j = Stays-ask w (send_message q j)

  pub Stays-send_keepalive : (q : String) (j : Json) (t : ℕ) → Stays (ask w (send_keepalive q j t))
  Stays-send_keepalive q j t = Stays-ask w (send_keepalive q j t)

  pub Stays-queue_depth : (q : String) → Stays (ask w (queue_depth q))
  Stays-queue_depth q = Stays-ask w (queue_depth q)

  pub Stays-post : (u : String) (j : Json) → Stays (ask w (post u j))
  Stays-post u j = Stays-ask w (post u j)

  pub Stays-prepare : (job : SimpleJob) → Stays (ask w (run job prepare))
  Stays-prepare job = Stays-ask w (run job prepare)

  pub Stays-select_artifacts :
      (job : SimpleJob) (m : Json) → Stays (ask w (run job (select_artifacts m)))
  Stays-select_artifacts job m = Stays-ask w (run job (select_artifacts m))

  pub Stays-stage_reports : (job : SimpleJob) → Stays (ask w (run job stage_reports))
  Stays-stage_reports job = Stays-ask w (run job stage_reports)

  pub Stays-compile_project :
      (job : SimpleJob) (o : Json) → Stays (ask w (run job (compile_project o)))
  Stays-compile_project job o = Stays-ask w (run job (compile_project o))

  pub Stays-build_envelope : (job : SimpleJob) → Stays (ask w (run job build_envelope))
  Stays-build_envelope job = Stays-ask w (run job build_envelope)

  pub Stays-to_scope_process : (job : SimpleJob) → Stays (ask w (run job to_scope_process))
  Stays-to_scope_process job = Stays-ask w (run job to_scope_process)

  pub Stays-sheet_renders : (job : SimpleJob) → Stays (ask w (run job sheet_renders))
  Stays-sheet_renders job = Stays-ask w (run job sheet_renders)

  pub Stays-build_sow : (job : SimpleJob) → Stays (ask w (run job build_sow))
  Stays-build_sow job = Stays-ask w (run job build_sow)

  pub Stays-compile_trace : (job : SimpleJob) → Stays (ask w (run job compile_trace))
  Stays-compile_trace job = Stays-ask w (run job compile_trace)

  pub Stays-full_result : (job : SimpleJob) → Stays (ask w (run job full_result))
  Stays-full_result job = Stays-ask w (run job full_result)

  pub Stays-retrain_types : (job : SimpleJob) → Stays (ask w (run job retrain_types))
  Stays-retrain_types job = Stays-ask w (run job retrain_types)

  pub Stays-retrain_spans : (job : SimpleJob) → Stays (ask w (run job retrain_spans))
  Stays-retrain_spans job = Stays-ask w (run job retrain_spans)

  pub Stays-write_back_ml : (job : SimpleJob) → Stays (ask w (run job write_back_ml))
  Stays-write_back_ml job = Stays-ask w (run job write_back_ml)

  pub Stays-write_c3_sow : (job : SimpleJob) (e : Fields) → Stays (ask w (run job (write_c3_sow e)))
  Stays-write_c3_sow job e = Stays-ask w (run job (write_c3_sow e))

pub ruleset stays_rules = (
  Stays-pure, Stays-raise, Stays-gets, Stays-if, Stays-catch, Stays-attempt, Stays-modify,
  Stays-iso_now, Stays-bind, Stays-option, Stays-replied, Stays-download, Stays-download_from,
  Stays-upload, Stays-delete_blob, Stays-exists, Stays-list_blobs, Stays-create_queue,
  Stays-receive, Stays-update_message, Stays-delete_message, Stays-send_message,
  Stays-send_keepalive, Stays-queue_depth, Stays-post, Stays-prepare, Stays-select_artifacts,
  Stays-stage_reports, Stays-compile_project, Stays-build_envelope, Stays-to_scope_process,
  Stays-sheet_renders, Stays-build_sow, Stays-compile_trace, Stays-full_result, Stays-retrain_types,
  Stays-retrain_spans, Stays-write_back_ml, Stays-write_c3_sow,
)

pub ruleset returns_rules = (
  Returns-pure, Returns-gets, Returns-if, Returns-catch, Returns-attempt, Returns-modify,
  Returns-iso_now, Returns-bind, Returns-option, stays_rules,
)
