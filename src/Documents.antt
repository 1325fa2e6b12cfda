-- ===== src/Documents.antt =====
-- Reading a blob as a JSON document: `json.loads(blob.download_blob().readall())`.
pub mod Reads
use parser_os_worker.Base.{Bool, Option, String, false, maybe, none, str_eq, true}
use parser_os_worker.Json.{Fields, Json, as_dict, null, str}
use parser_os_worker.Service.{Blob, Exc, Host, download}
use parser_os_worker.Service.Action.{Action, ask, catch, pure, raise, ◌>>=◌, ◌>>◌}

abbrev pub decode_error : Exc
decode_error = record { kind = "JSONDecodeError"; message = "Expecting value" }

-- json.loads of a blob that was read
unfoldable pub parsed : Blob → Action Json
parsed b = maybe b.doc (raise decode_error) pure

module _ (w : Host) where
  unfoldable pub read_json : String → Action Json
  unfolding parsed
  read_json path = do b ← ask w (download path); parsed b

  -- the same, where anything but a dict, and every failure, reads as None
  unfoldable pub read_dict : String → Action (Option Fields)
  unfolding read_json
  read_dict path = catch (do j ← read_json path; pure (as_dict j)) (λ _. pure none)

-- x == s, for a text s
abbrev pub is_text : String → Json → Bool
is_text s (str t) = str_eq t s
is_text s _ = false

abbrev pub is_null : Json → Bool
is_null null = true
is_null _ = false
