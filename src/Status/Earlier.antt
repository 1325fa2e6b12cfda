-- ===== src/Status/Earlier.antt =====
-- What the next attempt reads of a status that an attempt has written.

use parser_os_worker.Base.{
  String, [], eq_refl, false, if◌then◌else◌, is_empty, none, refl, some, str_eq, ◌&&◌, ◌∷◌, ◌≡◌,
}
use parser_os_worker.Documents.Reads.{read_dict-found}
use parser_os_worker.Json.{
  as_dict, fields, find, get, merge, obj, or_json, put, str, text_of, truthy,
}
use parser_os_worker.Paths.{status_blob_path}
use parser_os_worker.Service.{Blob, Host, SimpleJob, answer, download}
use parser_os_worker.Service.Action.{Proc, ok, pure, ◌>>=◌}
use parser_os_worker.Status.{
  ends_with, is_do_not_rerun, previous, previous_attempt_cannot_succeed, read_status,
  status_payload,
}

-- A later attempt at the same compile that reads back a status document as `_write_status` makes it
-- of a status, a stage and an error, the first two not empty, gets that stage where the status is
-- "failed" and the stage is one of those that are not re-run, and nothing otherwise.
pub previous-written :
    (w : Host) (job : SimpleJob) (status stage error now : String) (b : Blob) (s : Proc)
    → w.reply s.log (download (status_blob_path job)) ≡ answer b
    → b.doc
      ≡ some (
          obj (
            status_payload w job status
              (fields (("stage", str stage) ∷ ("error", str error) ∷ []))
              now))
    → is_empty status ≡ false
    → is_empty stage ≡ false
    → (previous_attempt_cannot_succeed w job s).0
      ≡ ok (if str_eq status "failed" && is_do_not_rerun stage then some stage else none)
unfolding previous_attempt_cannot_succeed read_status previous ends_with status_payload ◌>>=◌ pure
    get find merge put text_of or_json truthy as_dict
previous-written w job status stage error now b s e f g h =
    rw (read_dict-found w (status_blob_path job) b _ s e f, g, h, eq_refl job.compile_id) refl
