-- ===== src/Service.antt =====
-- What main.py talks to: Azure Storage, the clock, and the process that it runs in. None of it is
-- code of the repository, so all of it is one parameter, `Host`: for every history of calls and
-- every next call it says what comes back, a value or an exception. Nothing is assumed of it: other
-- workers, users and outages may stand behind any answer. The worker's configuration (the constants
-- read from the environment at the top of main.py) is a parameter too.
pub mod Action
pub mod Keeps
pub mod Returns
pub mod Only
pub mod Calls
pub mod Triples
pub mod Codes
pub mod Exits
use parser_os_worker.Atoms.Document.{CompileOutput}
use parser_os_worker.Base.{Bool, List, Option, String, ℕ, ◌*◌}
use parser_os_worker.Json.{Fields, Json}

-- An exception: its type's name, and its text.
pub record Exc : Type 0 where
  pub kind : String
  pub message : String

-- The text or the bytes of a queue message; for bytes, what `.decode("utf-8")` makes of them, and
-- what it makes of them with errors="replace".
pub data Content : Type 0 where
  text : String → Content
  bytes : Option String → String → Content

pub record Message : Type 0 where
  pub id : String
  pub content : Content
  pub dequeue_count : ℕ

-- `SimpleJob`: what the status writers need of a job.
pub record SimpleJob : Type 0 where
  pub deal_id : String
  pub compile_id : String

-- A blob that was read: what `json.loads` makes of its text (`none` where it refuses), and its etag.
pub record Blob : Type 0 where
  pub doc : Option Json
  pub etag : Option String

-- What a queue answers to send_message, as the keepalive keeps it.
pub record Sent : Type 0 where
  pub id : Option String
  pub pop_receipt : Option String

-- What is uploaded: a JSON document, with blob metadata in the run index, or plain text.
pub data Body : Type 0 where
  document : Json → Body
  indexed : Json → List (String × String) → Body
  plain : String → Body

-- What a compile reports of its stages while it runs and when it ends: the `stages` list of the
-- progress document, with its length.
pub record Stages : Type 0 where
  pub listed : Json
  pub number : ℕ

-- One callback of `compile_project`: the stage, the phase ("running" or "completed"), the stages so
-- far, and `telemetry.stage_progress()`.
pub record StageReport : Type 0 where
  pub stage : String
  pub phase : String
  pub stages : Stages
  pub items_done : ℕ
  pub items_total : ℕ

pub record CompileResult : Type 0 where
  pub output : CompileOutput
  pub trace_stages : Option Stages
  pub elapsed : Json

-- The functions of other packages that a job runs. `stage_reports` are the callbacks that
-- `compile_project` makes before it returns or raises.
pub data Task : Type 0 where
  prepare : Task  -- the work directory and the manifest sidecar
  select_artifacts : Json → Task
  stage_reports : Task
  compile_project : Json → Task
  build_envelope : Task
  to_scope_process : Task
  sheet_renders : Task
  build_sow : Task
  compile_trace : Task
  full_result : Task
  retrain_types retrain_spans write_back_ml : Task
  write_c3_sow : Fields → Task

abbrev pub TaskAnswer : Task → Type 0
TaskAnswer (select_artifacts m) = List Fields
TaskAnswer stage_reports = List StageReport
TaskAnswer (compile_project o) = CompileResult
TaskAnswer build_envelope = Fields
TaskAnswer to_scope_process = Json
TaskAnswer sheet_renders = List (String × Option String)
TaskAnswer build_sow = String
TaskAnswer compile_trace = Json
TaskAnswer full_result = Option Json
TaskAnswer (write_c3_sow e) = Fields
TaskAnswer _ = Unit {0}

-- What fetch_ml.py asks of the disk and of the container ml-artifacts.
pub data FetchTask : Type 0 where
  connect_artifacts : FetchTask
  list_artifacts : FetchTask
  fetch_artifact_to : String → String → FetchTask  -- the blob, and the path that it is written to
  make_dir : String → FetchTask
  path_exists : String → FetchTask
  open_tar : String → FetchTask
  extract_all : String → String → Bool → FetchTask  -- the archive, where to, and with filter="data"
  list_dir : String → FetchTask
  file_size : String → FetchTask
  remove_file : String → FetchTask
  write_json : String → Json → FetchTask

abbrev pub FetchAnswer : FetchTask → Type 0
FetchAnswer list_artifacts = List String
FetchAnswer (path_exists p) = Bool
FetchAnswer (list_dir p) = List String
FetchAnswer (file_size p) = ℕ
FetchAnswer _ = Unit {0}

-- What the housekeeping of the temp directory asks of the disk.
pub data DiskTask : Type 0 where
  stale_workdirs : String → DiskTask  -- root.glob("parser-os-worker-*")
  is_directory : String → DiskTask
  remove_tree : String → DiskTask  -- shutil.rmtree(..., ignore_errors=True)
  is_there : String → DiskTask
  disk_free : String → DiskTask

abbrev pub DiskAnswer : DiskTask → Type 0
DiskAnswer (stale_workdirs r) = List String
DiskAnswer (is_directory p) = Bool
DiskAnswer (remove_tree p) = Unit {0}
DiskAnswer (is_there p) = Bool
DiskAnswer (disk_free r) = ℕ

-- A call of the Azure SDK or of another package. Blobs without a container are in BLOB_CONTAINER.
pub data Call : Type 0 where
  download : String → Call
  download_from : String → String → Call
  upload : String → Body → Option String → Call  -- with an etag: only if not modified
  delete_blob : String → Call
  exists : String → Call
  list_blobs : String → Call
  create_queue : String → Call
  receive : String → Call  -- visibility_timeout=VISIBILITY_TIMEOUT_SEC, one message
  update_message : String → String → Option String → ℕ → Call  -- queue, id, receipt, visibility
  delete_message : String → String → Option String → Call  -- queue, id, receipt
  send_message : String → Json → Call
  send_keepalive : String → Json → ℕ → Call  -- with time_to_live
  queue_depth : String → Call
  post : String → Json → Call  -- the HTTP trigger of brief-gen
  run : SimpleJob → Task → Call  -- of this job
  fetch : FetchTask → Call
  disk : DiskTask → Call

abbrev pub Answer : Call → Type 0
Answer (download p) = Blob
Answer (download_from c p) = Blob
Answer (exists p) = Bool
Answer (list_blobs p) = List String
Answer (receive q) = Option (Message × Option String)
Answer (update_message q i r v) = Option String
Answer (send_keepalive q j t) = Sent
Answer (queue_depth q) = ℕ
Answer (post u j) = ℕ
Answer (run job t) = TaskAnswer t
Answer (fetch t) = FetchAnswer t
Answer (disk t) = DiskAnswer t
Answer _ = Unit {0}

pub data Reply {ℓ} (A : Type ℓ) : Type ℓ where
  answer : A → Reply A
  failure : Exc → Reply A

-- The two cases of a reply.
abbrev pub replied {ℓ κ} : {A : Type ℓ} {B : Type κ} → Reply A → (Exc → B) → (A → B) → B
replied (answer a) h f = f a
replied (failure e) h f = h e

-- A call that has been made, with whether it came back or raised. Histories have the newest first.
pub data Event : Type 0 where
  did : Call → Event
  failed : Call → Event

abbrev pub History : Type 0
History = List Event

-- The constants at the top of main.py. `sec_per_doc` and `lease_fraction` are in thousandths.
pub record Config : Type 0 where
  pub queue_name : String
  pub priority_queue_name : String
  pub poison_queue_name : String
  pub brief_gen_queue_name : String
  pub inflight_queue_name : String
  pub drain_sentinel_blob : String
  pub compile_timeout_sec : ℕ
  pub sec_per_doc : ℕ
  pub lease_fraction : ℕ
  pub visibility_timeout_sec : ℕ
  pub lease_renew_sec : ℕ
  pub lease_max_sec : ℕ
  pub max_dequeue_count : ℕ
  pub skip_deal_ids : List String
  pub retrain_enabled : Bool
  pub worker_sha : String
  pub parser_os_sha : String
  pub replica : String
  pub boot_id : String
  pub defer_to_warm : Bool
  pub worker_loop : Bool
  pub tmpdir : String  -- TMPDIR; empty where it is not set
  pub default_tmp : String  -- tempfile.gettempdir()
  pub brief_gen_url : String  -- the trigger's URL; empty where no worker is configured

pub record Host : Type 0 where
  pub config : Config
  pub open config use *
  -- what the next call gives, after these calls
  pub reply : History → (c : Call) → Reply (Answer c)
  -- `_iso_now()`
  pub now : History → String
  -- repr() of a float, a list or a dict
  pub repr : Json → String
  -- json.loads of a text
  pub loads : String → Option Json
  -- base64.b64decode(text, validate=False) and .decode("utf-8"), and the same with validate=True
  pub from_base64 : String → Option String
  pub from_base64_strict : String → Option String
  -- hashlib.sha256(text.encode("utf-8")).hexdigest()
  pub sha256 : String → String
  -- urlparse(url).path, and unquote(text)
  pub url_path : String → String
  pub unquote : String → String
  -- uuid4().hex, and traceback.format_exc()
  pub fresh_id : History → String
  pub traceback : Exc → String
  -- `time.time() - progress_started_perf`, in milliseconds
  pub elapsed_ms : History → ℕ
  -- round(time.monotonic() - t0, 1) of a SOW draft
  pub draft_seconds : History → Json
  -- f"{x:g}", f"{x:.0f}" and f"{x:.1f}" of a float that is given in thousandths
  pub format_g : ℕ → String
  pub format_whole : ℕ → String
  pub format_tenths : ℕ → String
  -- round(x, 2)
  pub round_hundredth : Json → Json
  -- how many calls of the language model the patched functions have noted
  pub llm_calls : History → ℕ
