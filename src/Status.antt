-- ===== src/Status.antt =====
-- The status surface: `_read_status`, the two questions about an earlier attempt, the run index and
-- `_write_status`.
pub mod Effects
pub mod Bounds
pub mod Earlier
use parser_os_worker.Base.{
  Bool, List, Option, String, [], cut, if◌then◌else◌, is_empty, is_some, keep, leb, ltb, none, size,
  some, str_eq, ℕ, ◌&&◌, ◌-◌, ◌<>◌, ◌||◌, ◌∷◌,
}
use parser_os_worker.Documents.{is_null, is_text, read_dict}
use parser_os_worker.Json.{
  Fields, Json, end, field, fields, find, get, merge, obj, or_json, put, str, text_of, truthy,
}
use parser_os_worker.Paths.{run_index_blob_path, status_blob_path}
use parser_os_worker.Service.{Host, SimpleJob, document, indexed, upload}
use parser_os_worker.Service.Action.{Action, ask, attempt, iso_now, pure, ◌>>=◌, ◌>>◌}

abbrev pub error_max : ℕ
error_max = 500

-- _TERMINAL_STATUSES
unfoldable pub is_terminal : String → Bool
is_terminal status =
    str_eq status "completed" || str_eq status "failed" || str_eq status "interrupted"

-- _DO_NOT_RERUN_STAGES
unfoldable pub is_do_not_rerun : String → Bool
is_do_not_rerun stage =
    str_eq stage "timeout" || str_eq stage "killed" || str_eq stage "out_of_memory"

-- _RUN_INDEX_FIELDS
abbrev pub run_index_fields : List String
run_index_fields =
    "compile_id" ∷ "deal_id" ∷ "status" ∷ "stage" ∷ "updated_at" ∷ "worker_sha" ∷ "parser_os_sha"
    ∷ "elapsed_sec" ∷ "entity_count" ∷ "atom_count" ∷ "percent_complete" ∷ []

abbrev pub metadata_keys : List String
metadata_keys =
    "status" ∷ "stage" ∷ "deal_id" ∷ "compile_id" ∷ "updated_at" ∷ "elapsed_sec" ∷ "worker_sha" ∷ []

-- {k: payload[k] for k in keys if k in payload}
pub pick : List String → Fields → Fields
pick [] payload = end
pick (k ∷ ks) payload = elim (find k payload) [
  | none ↦ pick ks payload
  | some j ↦ field k j (pick ks payload)
]

pub printable : ℕ → Bool
printable c = leb 32 c && ltb c 127

pub shorten : String → String
shorten s = if leb (size s) error_max then s else cut (error_max - 1) s <> "…"

module _ (w : Host) where
  -- _metadata_value
  pub metadata_value : Json → String
  unfolding printable
  metadata_value j = cut 128 (keep printable (if is_null j then "" else text_of w.repr j))

  -- _run_index_metadata
  unfoldable pub run_index_metadata : List String → Fields → List (String × String)
  unfolding metadata_value
  run_index_metadata [] payload = []
  run_index_metadata (k ∷ ks) payload =
      let rest = run_index_metadata ks payload in
      let value = metadata_value (get k payload) in
      if is_empty value then rest else (k, value) ∷ rest

  pub run_index_body : Fields → Fields
  unfolding pick shorten
  run_index_body payload =
      let body = pick run_index_fields payload in
      let err = get "error" payload in
      if truthy err then put "error" (str (shorten (text_of w.repr err))) body else body

  -- _write_run_index
  unfoldable pub write_run_index : Fields → Action (Unit {0})
  unfolding run_index_body
  write_run_index payload = attempt (
      ask w (
        upload
          (run_index_blob_path (text_of w.repr (get "compile_id" payload))
            (text_of w.repr (get "updated_at" payload)))
          (indexed (obj (run_index_body payload)) (run_index_metadata metadata_keys payload)) none))

  unfoldable pub status_payload : SimpleJob → String → Fields → String → Fields
  status_payload job status extra now =
      merge
        (fields (
          ("compile_id", str job.compile_id)
          ∷ ("deal_id", str job.deal_id)
          ∷ ("status", str status)
          ∷ ("updated_at", str now)
          ∷ ("worker_sha", str w.worker_sha)
          ∷ ("parser_os_sha", str w.parser_os_sha)
          ∷ []))
        extra

  -- _write_status
  unfoldable pub write_status : SimpleJob → String → Fields → Action (Unit {0})
  unfolding status_payload
  write_status job status extra = do
    now ← iso_now w
    let payload = status_payload job status extra now
    attempt (ask w (upload (status_blob_path job) (document (obj payload)) none))
    if is_terminal status then write_run_index payload else pure tt

  -- _read_status
  unfoldable pub read_status : SimpleJob → Action (Option Fields)
  read_status job = read_dict w (status_blob_path job)

  ends_with : (String → Bool) → SimpleJob → Fields → Option String
  ends_with final job prev =
      let stage = text_of w.repr (or_json (get "stage" prev) (str "")) in
      let status = text_of w.repr (or_json (get "status" prev) (str "")) in
      if is_text job.compile_id (get "compile_id" prev) && str_eq status "failed" && final stage
      then some stage
      else none

  previous : (String → Bool) → SimpleJob → Option Fields → Option String
  unfolding ends_with
  previous final job none = none
  previous final job (some prev) = ends_with final job prev

  -- _previous_attempt_timed_out
  unfoldable pub previous_attempt_timed_out : SimpleJob → Action Bool
  unfolding previous
  previous_attempt_timed_out job = do
    prev ← read_status job
    pure (is_some (previous (λ stage. str_eq stage "timeout") job prev))

  -- _previous_attempt_cannot_succeed
  unfoldable pub previous_attempt_cannot_succeed : SimpleJob → Action (Option String)
  unfolding previous
  previous_attempt_cannot_succeed job = do
    prev ← read_status job
    pure (previous is_do_not_rerun job prev)
