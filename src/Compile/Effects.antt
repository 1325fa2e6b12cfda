-- ===== src/Compile/Effects.antt =====
-- What a compile touches: blobs and packages, and no queue.

use parser_os_worker.Active.Effects.{mark-storage}
use parser_os_worker.Base.{Bool, List, Option, String, [], none, refl, some, ℕ, ◌∷◌}
use parser_os_worker.Compile.{
  deliver, do_compile, end_payload, upload_atoms, upload_envelope, upload_progress, upload_renders,
  upload_sheet_renders, upload_sidecars, write_compile_progress, write_fingerprint, write_progress,
  write_reports,
}
use parser_os_worker.Documents.{parsed}
use parser_os_worker.Download.{download_artifacts, download_manifest, download_url, fetch_artifact}
use parser_os_worker.Json.{Fields, Json}
use parser_os_worker.Keepalive.Effects.{own_desk}
use parser_os_worker.Message.{JobMessage}
use parser_os_worker.Service.{Blob, Call, CompileResult, Host, StageReport, Stages}
use parser_os_worker.Service.Calls.{errand_of_desk, errand_of_storage, is_errand, is_storage}
use parser_os_worker.Service.Only.{Only, Only-bind, Only-pure}
use parser_os_worker.Service.Only.Rules.{Only-upload, only_rules}
use parser_os_worker.Status.Effects.{write_status-storage}
use parser_os_worker.Temp.{assert_tmp_has_space, scrub_stale}
use parser_os_worker.Temp.Effects.{assert_tmp_has_space-Only, scrub_stale-Only}

module _ (w : Host) where
  abbrev pub errand : Call → Bool
  errand = is_errand w.inflight_queue_name

  download_url-desk : (url : String) → Only (own_desk w) (download_url w url)
  unfolding download_url
  download_url-desk url = search only_rules depth 12

  parsed-desk : (b : Blob) → Only (own_desk w) (parsed b)
  unfolding parsed
  parsed-desk b = search only_rules depth 12

  pub download_manifest-desk : (url : String) → Only (own_desk w) (download_manifest w url)
  unfolding download_manifest
  download_manifest-desk url = search (only_rules, download_url-desk, parsed-desk) depth 12

  fetch_artifact-desk : (a : Fields) → Only (own_desk w) (fetch_artifact w a)
  unfolding fetch_artifact
  fetch_artifact-desk a = search (only_rules, download_url-desk) depth 12

  download_artifacts-desk : (l : List Fields) → Only (own_desk w) (download_artifacts w l)
  unfolding download_artifacts
  download_artifacts-desk [] = Only-pure tt
  download_artifacts-desk (a ∷ l) =
      Only-bind _ _ (fetch_artifact-desk a) (λ _. download_artifacts-desk l)

module _ (w : Host) (job : JobMessage) where
  upload_progress-storage :
      (payload : String → ℕ → Fields) → Only is_storage (upload_progress w job payload)
  unfolding upload_progress
  upload_progress-storage payload = search only_rules depth 12

  write_progress-storage :
      (started : String) (r : StageReport) → Only is_storage (write_progress w job started r)
  unfolding write_progress
  write_progress-storage started r =
      search (only_rules, upload_progress-storage, mark-storage) depth 12

  write_reports-storage :
      (started : String) (l : List StageReport) → Only is_storage (write_reports w job started l)
  unfolding write_reports
  write_reports-storage started [] = Only-pure tt
  write_reports-storage started (r ∷ l) =
      Only-bind _ _ (write_progress-storage started r) (λ _. write_reports-storage started l)

  pub write_compile_progress-storage :
      (started status : String) (stage : Json) (stages : Stages) (n : ℕ)
      → Only is_storage (write_compile_progress w job started status stage stages n)
  unfolding write_compile_progress
  write_compile_progress-storage started status stage stages n =
      upload_progress-storage (end_payload w job started status stage stages n)

  upload_renders-storage :
      (l : List (String × Option String)) → Only is_storage (upload_renders w job l)
  unfolding upload_renders
  upload_renders-storage [] = Only-pure tt
  upload_renders-storage ((stem, none) ∷ l) = upload_renders-storage l
  upload_renders-storage ((stem, some body) ∷ l) =
      Only-bind _ _ (Only-upload w _ _ _ refl) (λ _. upload_renders-storage l)

  ruleset errands = (
    only_rules, errand_of_desk, errand_of_storage, upload_progress-storage, write_reports-storage,
    write_compile_progress-storage, write_status-storage,
  )

  sheet_renders-errand : Only (errand w) (upload_sheet_renders w job)
  unfolding upload_sheet_renders
  sheet_renders-errand = search (errands, upload_renders-storage) depth 12

  upload_envelope-storage : (e : Fields) → Only is_storage (upload_envelope w job e)
  unfolding upload_envelope
  upload_envelope-storage e = search only_rules depth 12

  pub write_fingerprint-storage : (m : Json) → Only is_storage (write_fingerprint w job m)
  unfolding write_fingerprint
  write_fingerprint-storage m = search only_rules depth 12

  upload_atoms-errand : (r : CompileResult) → Only (errand w) (upload_atoms w job r)
  unfolding upload_atoms
  upload_atoms-errand r = search errands depth 14

  pub sidecars-errand :
      (scope : Json) (r : CompileResult) → Only (errand w) (upload_sidecars w job scope r)
  unfolding upload_sidecars
  sidecars-errand scope r = search (errands, upload_atoms-errand) depth 16

  deliver-errand :
      (manifest : Json) (started : String) (r : CompileResult)
      → Only (errand w) (deliver w job manifest started r)
  unfolding deliver
  deliver-errand manifest started r =
      search
        (
          errands, sheet_renders-errand, upload_envelope-storage, write_fingerprint-storage,
          sidecars-errand,
        )
        depth 20

  scrubbing : Only (errand w) (scrub_stale w)
  scrubbing = scrub_stale-Only w (errand w) (λ t. refl)

  spacing : (n : ℕ) → Only (errand w) (assert_tmp_has_space w n)
  spacing = assert_tmp_has_space-Only w (errand w) (λ t. refl)

  pub do_compile-errand : (manifest : Json) → Only (errand w) (do_compile w job manifest)
  unfolding do_compile
  do_compile-errand manifest =
      search (errands, scrubbing, spacing, download_artifacts-desk, deliver-errand) depth 20
