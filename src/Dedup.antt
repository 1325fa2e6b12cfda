-- ===== src/Dedup.antt =====
-- Change detection: `_manifest_as_of`, `_norm_as_of`, `_unchanged_since_last_compile`, and the
-- fingerprint that `_do_compile` writes.
pub mod Effects
pub mod Roundtrip
pub mod Sorted
use Prim.Native.String.{compare}
use text.Mathlib.Text
use parser_os_worker.Base.{
  Bool, List, Option, String, [], false, if◌then◌else◌, none, not, some, str_eq, strip, true, ◌&&◌,
  ◌<>◌, ◌∷◌,
}
use parser_os_worker.Documents.{is_null, is_text, read_dict}
use parser_os_worker.Json.{
  Fields, Items, Json, arr, as_dict, cons, fields, get, nil, obj, optional, or_json, str, text_of,
}
use parser_os_worker.Message.{nonempty}
use parser_os_worker.Paths.{idempotency_blob_path}
use parser_os_worker.Service.{Host}
use parser_os_worker.Service.Action.{Action, pure, ◌>>=◌, ◌>>◌}

abbrev pub str_leb : String → String → Bool
str_leb s t = not (Text.is_lt (compare t s))

pub insert_sorted : String → List String → List String
insert_sorted s [] = s ∷ []
insert_sorted s (t ∷ ts) = if str_leb s t then s ∷ t ∷ ts else t ∷ insert_sorted s ts

-- sorted(texts)
unfoldable pub sorted : List String → List String
unfolding insert_sorted
sorted [] = []
sorted (t ∷ ts) = insert_sorted t (sorted ts)

-- "\n".join(texts)
unfoldable pub join_lines : List String → String
join_lines [] = ""
join_lines (s ∷ []) = s
join_lines (s ∷ t ∷ ts) = s <> "\n" <> join_lines (t ∷ ts)

module _ (w : Host) where
  -- _norm_as_of
  unfoldable pub norm_as_of : Json → Option String
  norm_as_of j = if is_null j then none else nonempty (strip (text_of w.repr j))

  -- _manifest_as_of
  unfoldable pub manifest_as_of : Json → Option String
  unfolding norm_as_of
  manifest_as_of manifest = elim (as_dict manifest) [
    | none ↦ none
    | some m ↦ elim (as_dict (get "context" m)) [
      | none ↦ none
      | some c ↦ norm_as_of (get "as_of" c)
    ]
  ]

  item_hashes : Items → Option (List String)
  item_hashes nil = some []
  item_hashes (cons (obj d) js) = elim (item_hashes js) [
    | none ↦ none
    | some hs ↦ some (text_of w.repr (or_json (get "content_sha256" d) (str "")) ∷ hs)
  ]
  item_hashes (cons j js) = none

  -- the comprehension over `manifest.get("artifacts") or []`; none is the exception
  hashes_of : Json → Option (List String)
  unfolding item_hashes
  hashes_of (arr js) = item_hashes js
  hashes_of _ = none

  unfoldable pub content_hashes : Json → Option (List String)
  unfolding hashes_of
  content_hashes manifest = elim (as_dict manifest) [
    | none ↦ none
    | some m ↦ hashes_of (or_json (get "artifacts" m) (arr nil))
  ]

  pub artifact_key : List String → String
  artifact_key hashes = w.sha256 (join_lines (sorted hashes))

  abbrev pub same_scope : Option String → Option String → Bool
  same_scope none none = true
  same_scope (some a) (some b) = str_eq a b
  same_scope _ _ = false

  pub matches_record : List String → Json → Fields → Bool
  unfolding artifact_key
  matches_record hashes manifest rec =
      is_text (artifact_key hashes) (get "artifact_key" rec)
      && same_scope (norm_as_of (get "as_of" rec))
          (elim (manifest_as_of manifest) [ none ↦ none | some v ↦ norm_as_of (str v) ])

  unfoldable pub compare_record : String → Json → Option (List String) → Action Bool
  unfolding matches_record
  compare_record deal manifest none = pure false
  compare_record deal manifest (some hashes) = do
    found ← read_dict w (idempotency_blob_path deal)
    pure (elim found [ none ↦ false | some rec ↦ matches_record hashes manifest rec ])

  -- _unchanged_since_last_compile
  unfoldable pub unchanged_since_last_compile : String → Json → Action Bool
  unfolding compare_record
  unchanged_since_last_compile deal manifest =
      compare_record deal manifest (content_hashes manifest)

  -- the document that a compile leaves at the idempotency path
  unfoldable pub fingerprint : List String → Json → String → String → Fields
  unfolding artifact_key
  fingerprint hashes manifest compile_id now = fields (
      ("artifact_key", str (artifact_key hashes))
      ∷ ("as_of", optional (manifest_as_of manifest))
      ∷ ("compile_id", str compile_id)
      ∷ ("parser_os_sha", str w.parser_os_sha)
      ∷ ("worker_sha", str w.worker_sha)
      ∷ ("completed_at", str now)
      ∷ [])
