-- ===== src/Paths.antt =====
-- Where main.py keeps its documents, as paths in the artifacts container.

use parser_os_worker.Base.{String, cut, ◌<>◌}
use parser_os_worker.Service.{SimpleJob}

unfoldable pub latest_path : String → String → String
latest_path deal file = "deals/" <> deal <> "/orbitbrief/latest/" <> file

-- _progress_blob_path
unfoldable pub progress_blob_path : String → String
unfolding latest_path
progress_blob_path deal = latest_path deal "compile-progress.json"

-- _cancel_blob_path
unfoldable pub cancel_blob_path : String → String
unfolding latest_path
cancel_blob_path deal = latest_path deal "compile-cancel.json"

unfoldable pub idempotency_blob_path : String → String
unfolding latest_path
idempotency_blob_path deal = latest_path deal "compile-idempotency.json"

-- _status_blob_path
unfoldable pub status_blob_path : SimpleJob → String
status_blob_path job = "deals/" <> job.deal_id <> "/parser-jobs/" <> job.compile_id <> ".json"

-- ACTIVE_INDEX_PREFIX and _active_index_path
abbrev pub active_index_prefix : String
active_index_prefix = "_active-compiles"

unfoldable pub active_index_path : String → String
active_index_path compile_id = active_index_prefix <> "/" <> compile_id <> ".json"

-- _run_index_blob_path
unfoldable pub run_index_blob_path : String → String → String
run_index_blob_path compile_id updated_at =
    "_parser-runs/" <> cut 10 updated_at <> "/" <> compile_id <> ".json"
