-- ===== src/Lib.antt =====
-- parser-os-worker: the worker that takes a compile job from an Azure Storage queue, runs parser-os on
-- the deal's documents, and keeps the deal's status, progress and results in blob storage. The program
-- is src/parser_os_worker/main.py, with drain.py beside it, and the scripts fetch_ml.py and
-- write_back_ml.py.
--
-- The world. Azure Storage, the disk, the clock and the packages that a compile runs are not code of the
-- repository. They are one parameter, `Host` (Service): for every history of calls and every next call
-- it says what comes back, a value or an exception, and nothing is assumed of it. A function of main.py
-- that calls services is an `Action` (Service/Action): it takes the state of the process (the calls made
-- so far, the pop receipt, `_INFLIGHT`, `_KEEPALIVE_CLIENT`, `_RECOVERY_DONE`) and returns, raises, or
-- ends the process as `os._exit` does. try/except is `catch`, `attempt` where nothing is done, and
-- `finally`. Service/Keeps, Returns, Only, Triples and Exits are the ways of reasoning about actions:
-- what they preserve, that they return, which calls they make, partial correctness, and that they end
-- the process.
--
-- The parts, each a module with its proofs in child modules:
--   Base, Json       tests, lists and text; the values of json.loads, str(x), int(x), `x or y`
--   Paths, Documents where the documents are, and reading one
--   Message          _parse_queue_json, _who_asked, JobMessage.from_raw
--   Budget           compile_budget_sec
--   Status           _read_status, _write_status, the run index, the questions about earlier attempts
--   Progress         _read_progress, _fail_progress_if_ours, _killed_run_message
--   Active           _mark_compile_active, _clear_compile_active
--   Keepalive        _send_keepalive, _delete_keepalive, _safe_delete_queue_message
--   Recovery         recover_dead_runs
--   Release          _release_inflight and the signal handler
--   Dedup            _unchanged_since_last_compile and the fingerprint of a compile
--   Notify           the poison queue, the notices to brief-gen, drain_requested
--   Temp             _scrub_stale_worker_tmp and _assert_tmp_has_space
--   Download         _blob_path_from_url, _download_manifest, the artifacts
--   Atoms            _serialize_atom_for_ui, and the document that _upload_atoms makes of the atoms
--   Compile          _do_compile: which documents it reads and writes, and in which order
--   SowDraft         _run_sow_draft, _sow_draft_status, _sow_draft_summary
--   Work             the work of one job in main, from "Mark running" to the exit code
--   Main             main, cut along its early returns, and the WORKER_LOOP poller
--   Watchdog         _CompileWatchdog and _MemoryGuard
--   Cancel           _CancelWatcher
--   Lease            _LeaseRenewer
--   Heartbeat        _ProgressHeartbeat against stop(), a step relation with the lock
--   FetchMl          fetch_ml.py: the download, the archives, and the gate before a container starts
--   WriteBack        write_back_ml.py, against a blob container with its laws
--   Tests            worlds to run the worker in, and runs in them
--
-- Main calls the other parts as main() does. The threads (Watchdog, Cancel, Lease) run beside the
-- compile; what one does between two waits is an action, and the waits that time out are a number or a
-- list given to it. Only the heartbeat's interleaving with the worker is modelled step by step.
--
-- Numbers. Seconds that are floats are thousandths on ℕ; a float of json.loads is its sign, whole part
-- and millionths; byte counts are on ℕ. Python's ints have no width, so nothing wraps around. There is no
-- fuel: loops run over the lists or rounds that they are given.
--
-- The scripts. fetch_ml.py runs in the same world; its environment, os.path.realpath and the clock are
-- parameters of its own. write_back_ml.py has a blob container as its parameter, a record of operations
-- (WriteBack); the theorem on what a write-back leaves there assumes the laws of WriteBack/Laws, which the
-- container in memory of WriteBack/Memory satisfies.
--
-- Not modelled. Log lines, except the one whose arguments can raise; the construction of the clients;
-- the readings of the container's memory; the patching of the LLM call sites and the documents that the
-- packages build in _do_compile; the smoke tests. json.loads, base64, SHA-256, URL parsing and the
-- formatting of floats are functions of the Host. White space and letter case are those of ASCII.

pub mod Base
pub mod Json
pub mod Atoms
pub mod Service
pub mod Temp
pub mod Paths
pub mod Documents
pub mod Message
pub mod Budget
pub mod Status
pub mod Progress
pub mod Active
pub mod Keepalive
pub mod Recovery
pub mod Release
pub mod Dedup
pub mod Notify
pub mod Download
pub mod Compile
pub mod SowDraft
pub mod Work
pub mod Main
pub mod Watchdog
pub mod Cancel
pub mod Lease
pub mod Heartbeat
pub mod FetchMl
pub mod WriteBack
pub mod Tests
