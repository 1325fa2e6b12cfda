-- ===== src/Progress.antt =====
-- The deal's progress document: `_read_progress`, `_fail_progress_if_ours` and
-- `_killed_run_message`.
pub mod Effects
pub mod Ownership
use parser_os_worker.Base.{
  Bool, Option, String, [], any, cut, false, if◌then◌else◌, none, some, str_eq, suc, true, ℕ, ◌<>◌,
  ◌==◌, ◌||◌, ◌∷◌,
}
use parser_os_worker.Documents.{is_null, is_text, parsed, read_dict}
use parser_os_worker.Json.{
  Fields, Json, arr, bool, dict_or_empty, end, field, fields, float, get, infinite, merge, nan, nat,
  neg, null, num, obj, or_json, restrict, str, text_of, truthy,
}
use parser_os_worker.Json.Numbers.{grouped, parse_int}
use parser_os_worker.Message.{exc}
use parser_os_worker.Paths.{progress_blob_path}
use parser_os_worker.Service.{
  Blob, Exc, Host, Reply, SimpleJob, answer, document, download, failure, upload,
}
use parser_os_worker.Service.Action.{Action, ask, catch, iso_now, pure, raise, ◌>>=◌, ◌>>◌}

abbrev pub etag_of : Option Blob → Option String
etag_of none = none
etag_of (some b) = b.etag

-- the keys that a failed document keeps
unfoldable pub is_kept : String → Bool
is_kept k = any (str_eq k) (
    "stages" ∷ "started_at" ∷ "stage_count_done" ∷ "stage_count_total_estimate" ∷ "triggered_by"
    ∷ "trigger_kind" ∷ "stage_items_done" ∷ "stage_items_total" ∷ [])

abbrev is_end : Fields → Bool
is_end end = true
is_end (field k j d) = false

-- The document is this compile's own, names no compile, or is empty or missing.
unfoldable pub is_ours : SimpleJob → Fields → Bool
is_ours job current =
    is_end current
    || is_null (get "compile_id" current)
    || is_text job.compile_id (get "compile_id" current)

-- ResourceNotFoundError of azure.core
abbrev pub is_not_found : Exc → Bool
is_not_found e = str_eq e.kind "ResourceNotFoundError"

module _ (w : Host) where
  -- _read_progress
  pub read_progress : String → Action (Option Fields)
  read_progress deal = read_dict w (progress_blob_path deal)

  pub failed_payload : SimpleJob → String → String → String → Fields → String → Fields
  failed_payload job stage error status current now = merge (restrict is_kept current) (
      fields (
        ("compile_id", str job.compile_id)
        ∷ ("deal_id", str job.deal_id)
        ∷ ("status", str status)
        ∷ ("current_stage", null)
        ∷ ("failed_stage", or_json (get "current_stage" current) (str stage))
        ∷ ("stage", str stage)
        ∷ ("updated_at", str now)
        ∷ ("error", str (cut 500 error))
        ∷ ("worker_sha", str w.worker_sha)
        ∷ ("parser_os_sha", str w.parser_os_sha)
        ∷ []))

  -- what stands there: the document, with the etag that was read, or nothing
  current_progress : String → Action (Fields × Option String)
  unfolding parsed
  current_progress deal =
      catch
        (do
          b ← ask w (download (progress_blob_path deal))
          j ← parsed b
          pure (dict_or_empty j, b.etag))
        (λ e. if is_not_found e then pure (end, none) else raise e)

  -- _fail_progress_if_ours
  pub fail_progress_if_ours : SimpleJob → String → String → String → Action Bool
  unfolding failed_payload current_progress
  fail_progress_if_ours job stage error status =
      catch
        (do
          found ← current_progress job.deal_id
          if is_ours job found.0
              then (do
                now ← iso_now w
                ask w (
                    upload (progress_blob_path job.deal_id)
                      (document (obj (failed_payload job stage error status found.0 now))) found.1)
                pure true)
              else pure false)
        (λ _. pure false)

abbrev negative_text : Bool → String
negative_text true = "-"
negative_text false = ""

-- int(x): a sign and a magnitude, or the exception
pub int_of : Json → Reply (Bool × ℕ)
int_of null = failure (exc "TypeError" "int() argument must not be None")
int_of (bool true) = answer (false, 1)
int_of (bool false) = answer (false, 0)
int_of (num (nat n)) = answer (false, n)
int_of (num (neg n)) = answer (true, suc n)
int_of (num (float s n f)) = answer (s, n)
int_of (num infinite) = failure (exc "OverflowError" "cannot convert float infinity to integer")
int_of (num nan) = failure (exc "ValueError" "cannot convert float NaN to integer")
int_of (str s) = elim (parse_int s) [
  | none ↦ failure (exc "ValueError" "invalid literal for int()")
  | some z ↦ answer z
]
int_of (arr js) = failure (exc "TypeError" "int() argument must not be a list")
int_of (obj d) = failure (exc "TypeError" "int() argument must not be a dict")

-- f"{z:,}"
abbrev grouped_int : Bool × ℕ → String
grouped_int (s, n) = (if n == 0 then "" else negative_text s) <> grouped n

-- " at {done} of {total} items", or nothing where a TypeError or a ValueError is swallowed
abbrev swallow : Exc → Reply String
swallow e = if str_eq e.kind "TypeError" || str_eq e.kind "ValueError" then answer "" else failure e

abbrev counted : Json → Bool × ℕ → Reply String
counted done (s, n) = if s || n == 0 then answer "" else elim (int_of done) [
  | failure e ↦ swallow e
  | answer d ↦ answer (" at " <> grouped_int d <> " of " <> grouped n <> " items")
]

pub items_text : Json → Json → Reply String
unfolding int_of
items_text done total = elim (int_of total) [ failure e ↦ swallow e | answer t ↦ counted done t ]

module _ (w : Host) where
  -- _killed_run_message
  unfoldable pub killed_run_message : Json → Json → Json → Reply String
  unfolding items_text
  killed_run_message stage done total =
      let where_ = if truthy stage then " in " <> text_of w.repr stage else "" in
      elim (items_text done total) [
        | failure e ↦ failure e
        | answer items ↦ answer (
            "The parser worker was killed mid-run" <> where_ <> items
            <> ", most likely for running out of memory. Nothing was saved from this run; "
            <> "press Re-parse to try again.")
      ]
