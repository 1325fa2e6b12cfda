-- ===== src/Download.antt =====
-- `_blob_path_from_url`, `_download_manifest`, and the download of a manifest's artifacts.
use Prim.Native.Char.{code}
use parser_os_worker.Base.{
  List, Option, String, [], if◌then◌else◌, none, some, ◌&&◌, ◌<>◌, ◌==◌, ◌∷◌,
}
use parser_os_worker.Documents.{parsed}
use parser_os_worker.Json.{Fields, Json, get, null, or_json, text_of, truthy}
use parser_os_worker.Message.{exc}
use parser_os_worker.Service.{Blob, Host, Reply, answer, download_from, failure, replied}
use parser_os_worker.Service.Action.{Action, ask, pure, raise, ◌>>=◌, ◌>>◌}

-- posix: "/" and then "\" are stripped on the left of an artifact's name; only the name's presence
-- matters here
abbrev pub first_present : List String → Fields → Json
first_present [] d = null
first_present (k ∷ ks) d = or_json (get k d) (first_present ks d)

pub drop_slashes : String → String
drop_slashes String.[] = ""
drop_slashes (String.◌∷◌ c s) =
    let rest = drop_slashes s in if code c == 47 then rest else String.◌∷◌ c s

-- text.split("/", 1): what stands before the first slash and after it
pub split_slash : String → Option (String × String)
split_slash String.[] = none
split_slash (String.◌∷◌ c s) =
    let rest = split_slash s in
    if code c == 47
    then some ("", s)
    else (elim rest [ none ↦ none | some (a, b) ↦ some (String.◌∷◌ c a, b) ])

module _ (w : Host) where
  -- _blob_path_from_url
  unfoldable pub blob_path_from_url : String → Reply (String × String)
  unfolding drop_slashes split_slash
  blob_path_from_url url = elim (split_slash (drop_slashes (w.url_path url))) [
    | none ↦ failure (exc "ValueError" ("Cannot parse blob url: " <> url))
    | some (container, path) ↦ answer (w.unquote container, w.unquote path)
  ]

  unfoldable pub download_url : String → Action Blob
  download_url url =
      replied (blob_path_from_url url) raise
        λ (container, path). ask w (download_from container path)

  -- _download_manifest
  unfoldable pub download_manifest : String → Action Json
  unfolding download_url parsed
  download_manifest url = do b ← download_url url; parsed b

  -- one round of the download loop: an artifact with no URL or no name is passed over
  unfoldable pub fetch_artifact : Fields → Action (Unit {0})
  unfolding download_url
  fetch_artifact a =
      let url = first_present ("blob_url" ∷ "url" ∷ []) a in
      let name = first_present ("filename" ∷ "path" ∷ "name" ∷ []) a in
      if truthy url && truthy name then (do download_url (text_of w.repr url); pure tt) else pure tt

  unfoldable pub download_artifacts : List Fields → Action (Unit {0})
  unfolding fetch_artifact
  download_artifacts [] = pure tt
  download_artifacts (a ∷ artifacts) = do fetch_artifact a; download_artifacts artifacts
