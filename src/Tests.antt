-- ===== src/Tests.antt =====
-- Worlds to run the worker in: an Azure account as a list of documents and at most one message, with a
-- configuration like that of production.
pub mod Runs
pub mod Fetches
pub mod Mirrors
pub mod Rows
pub mod Parts
use parser_os_worker.Atoms.Document.{CompileOutput}
use parser_os_worker.Base.{
  List, Option, String, [], false, if◌then◌else◌, none, some, str_eq, true, ℕ, ◌^◌, ◌∷◌,
}
use parser_os_worker.Json.{Fields, Json, bool, end, fields, nat, null, num, obj, str}
use parser_os_worker.Json.Numbers.{show_nat}
use parser_os_worker.Main.{worker_loop}
use parser_os_worker.Service.{
  Answer, Blob, Call, Config, DiskAnswer, DiskTask, Exc, FetchAnswer, FetchTask, Host, Message,
  Reply, Task, TaskAnswer, answer, build_envelope, build_sow, compile_project, compile_trace,
  connect_artifacts, create_queue, delete_blob, delete_message, disk, disk_free, download,
  download_from, exists, extract_all, failure, fetch, fetch_artifact_to, file_size, full_result,
  is_directory, is_there, list_artifacts, list_blobs, list_dir, make_dir, open_tar, path_exists,
  post, prepare, queue_depth, receive, remove_file, remove_tree, retrain_spans, retrain_types, run,
  select_artifacts, send_keepalive, send_message, sheet_renders, stage_reports, stale_workdirs,
  text, to_scope_process, update_message, upload, write_back_ml, write_c3_sow, write_json,
}
use parser_os_worker.Service.Action.{Proc, no_inflight}

abbrev pub sample_config : Config
sample_config = record {
  queue_name = "parser-jobs";
  priority_queue_name = "parser-jobs-priority";
  poison_queue_name = "parser-jobs-poison";
  brief_gen_queue_name = "brief-gen";
  inflight_queue_name = "parser-inflight";
  drain_sentinel_blob = "_drain";
  compile_timeout_sec = 3000;
  sec_per_doc = 25000;
  lease_fraction = 900;
  visibility_timeout_sec = 900;
  lease_renew_sec = 300;
  lease_max_sec = 28800;
  max_dequeue_count = 5;
  skip_deal_ids = "skipped" ∷ [];
  retrain_enabled = false;
  worker_sha = "w1";
  parser_os_sha = "p1";
  replica = "replica-1";
  boot_id = "boot-2";
  defer_to_warm = false;
  worker_loop = false;
  tmpdir = "";
  default_tmp = "/tmp";
  brief_gen_url = "";
}

abbrev job_text : String
job_text = "{\"deal_id\": \"d1\"}"

-- a job of the deal d1
abbrev pub sample_fields : Fields
sample_fields = fields (
    ("compile_id", str "c1")
    ∷ ("deal_id", str "d1")
    ∷ ("manifest_blob_url", str "deals/d1/manifest.json")
    ∷ ("force", bool true)
    ∷ [])

abbrev pub sample_message : ℕ → Message
sample_message n = record { id = "m1"; content = text job_text; dequeue_count = n }

abbrev not_found : Exc
not_found = record { kind = "ResourceNotFoundError"; message = "no such thing" }

-- what is stored: a document with its etag
abbrev stored : List (String × Json) → String → Reply Blob
stored [] p = failure not_found
stored ((q, j) ∷ docs) p =
    let rest = stored docs p in
    if str_eq q p then answer (record { doc = some j; etag = some "0x1" }) else rest

abbrev no_output : CompileOutput
no_output = record { atoms = []; entities = 0; edges = 0; packets = 0; trace = null }

abbrev done_task : (t : Task) → Reply (TaskAnswer t)
done_task (select_artifacts m) = answer []
done_task stage_reports = answer []
done_task (compile_project o) =
    answer (record { output = no_output; trace_stages = none; elapsed = null })
done_task build_envelope = answer end
done_task to_scope_process = answer null
done_task sheet_renders = answer []
done_task build_sow = answer ""
done_task compile_trace = answer null
done_task full_result = answer none
done_task (write_c3_sow e) = answer end
done_task prepare = answer tt
done_task retrain_types = answer tt
done_task retrain_spans = answer tt
done_task write_back_ml = answer tt

-- one artifact is in the container, and all that is asked for is on the disk
abbrev done_fetch : (t : FetchTask) → Reply (FetchAnswer t)
done_fetch list_artifacts = answer ("_heads/a.pkl" ∷ [])
done_fetch (path_exists p) = answer true
done_fetch (list_dir p) = answer ("_heads" ∷ [])
done_fetch (file_size p) = answer 0
done_fetch connect_artifacts = answer tt
done_fetch (fetch_artifact_to n p) = answer tt
done_fetch (make_dir p) = answer tt
done_fetch (open_tar p) = answer tt
done_fetch (extract_all p d f) = answer tt
done_fetch (remove_file p) = answer tt
done_fetch (write_json p j) = answer tt

-- no leftovers, and a gigabyte free
abbrev done_disk : (t : DiskTask) → Reply (DiskAnswer t)
done_disk (stale_workdirs r) = answer []
done_disk (is_directory p) = answer false
done_disk (remove_tree p) = answer tt
done_disk (is_there p) = answer false
done_disk (disk_free r) = answer (2 ^ 30)

abbrev pub sample_replies : List (String × Json) → Option Message → (c : Call) → Reply (Answer c)
sample_replies docs msg (download p) = stored docs p
sample_replies docs msg (download_from c p) = stored docs p
sample_replies docs msg (exists p) = answer false
sample_replies docs msg (list_blobs p) = answer []
sample_replies docs none (receive q) = answer none
sample_replies docs (some m) (receive q) =
    answer (if str_eq q "parser-jobs" then some (m, some "r1") else none)
sample_replies docs msg (update_message q i x v) = answer (some "r2")
sample_replies docs msg (send_keepalive q j t) =
    answer (record { id = some "k1"; pop_receipt = some "kr" })
sample_replies docs msg (queue_depth q) = answer 0
sample_replies docs msg (post u j) = answer 200
sample_replies docs msg (run job t) = done_task t
sample_replies docs msg (fetch t) = done_fetch t
sample_replies docs msg (disk t) = done_disk t
sample_replies docs msg (upload p b e) = answer tt
sample_replies docs msg (delete_blob p) = answer tt
sample_replies docs msg (create_queue q) = answer tt
sample_replies docs msg (delete_message q i x) = answer tt
sample_replies docs msg (send_message q j) = answer tt

-- a world with these documents, this message on the normal queue, and no other worker
abbrev pub sample_world : List (String × Json) → Option Message → Host
sample_world docs msg = record {
  config = sample_config;
  reply = λ h. sample_replies docs msg;
  now = λ h. "2024-05-01T10:00:00Z";
  repr = λ j. "{}";
  loads = λ s. if str_eq s "{\"deal_id\": \"d1\"}" then some (obj sample_fields) else none;
  from_base64 = λ s. if str_eq s "wrapped" then some "{\"deal_id\": \"d1\"}" else none;
  from_base64_strict = λ s. none;
  sha256 = λ s. s;
  url_path = λ s. s;
  unquote = λ s. s;
  fresh_id = λ h. "id";
  traceback = λ e. "";
  elapsed_ms = λ h. 0;
  draft_seconds = λ h. num (nat 1);
  format_g = show_nat;
  format_whole = show_nat;
  format_tenths = show_nat;
  round_hundredth = λ j. j;
  llm_calls = λ h. 0;
}

-- a process that has done nothing
abbrev pub idle_process : Proc
idle_process = record {
  log = [];
  receipt = none;
  inflight = no_inflight;
  keepalive_client = false;
  recovery_done = false;
  notes = end;
}
