-- ===== src/Compile/Stays.antt =====
-- A compile returns or raises: it never ends the process.
use parser_os_worker.Active.Effects.{mark-Stays}
use parser_os_worker.Base.{List, Option, String, [], none, some, ℕ, ◌∷◌}
use parser_os_worker.Compile.{
  deliver, do_compile, end_payload, upload_atoms, upload_envelope, upload_progress, upload_renders,
  upload_sheet_renders, upload_sidecars, write_compile_progress, write_fingerprint, write_progress,
  write_reports,
}
use parser_os_worker.Documents.{parsed}
use parser_os_worker.Download.{download_artifacts, download_manifest, download_url, fetch_artifact}
use parser_os_worker.Json.{Fields, Json}
use parser_os_worker.Message.{JobMessage}
use parser_os_worker.Service.{Blob, CompileResult, Host, StageReport, Stages}
use parser_os_worker.Service.Returns.{Stays, Stays-bind, Stays-pure}
use parser_os_worker.Service.Returns.Rules.{Stays-upload, stays_rules}
use parser_os_worker.Status.Effects.{write_status-Stays}
use parser_os_worker.Temp.Effects.{assert_tmp_has_space-Stays, scrub_stale-Stays}

module _ (w : Host) where
  download_url-Stays : (url : String) → Stays (download_url w url)
  unfolding download_url
  download_url-Stays url = search stays_rules depth 12

  parsed-Stays : (b : Blob) → Stays (parsed b)
  unfolding parsed
  parsed-Stays b = search stays_rules depth 12

  pub download_manifest-Stays : (url : String) → Stays (download_manifest w url)
  unfolding download_manifest
  download_manifest-Stays url = search (stays_rules, download_url-Stays, parsed-Stays) depth 12

  fetch-Stays : (a : Fields) → Stays (fetch_artifact w a)
  unfolding fetch_artifact
  fetch-Stays a = search (stays_rules, download_url-Stays) depth 12

  artifacts-Stays : (l : List Fields) → Stays (download_artifacts w l)
  unfolding download_artifacts
  artifacts-Stays [] = Stays-pure tt
  artifacts-Stays (a ∷ l) = Stays-bind _ _ (fetch-Stays a) (λ _. artifacts-Stays l)

module _ (w : Host) (job : JobMessage) where
  progress-Stays : (payload : String → ℕ → Fields) → Stays (upload_progress w job payload)
  unfolding upload_progress
  progress-Stays payload = search stays_rules depth 12

  stage-Stays : (started : String) (r : StageReport) → Stays (write_progress w job started r)
  unfolding write_progress
  stage-Stays started r = search (stays_rules, progress-Stays, mark-Stays) depth 12

  reports-Stays : (started : String) (l : List StageReport) → Stays (write_reports w job started l)
  unfolding write_reports
  reports-Stays started [] = Stays-pure tt
  reports-Stays started (r ∷ l) =
      Stays-bind _ _ (stage-Stays started r) (λ _. reports-Stays started l)

  end-Stays :
      (started status : String) (stage : Json) (stages : Stages) (n : ℕ)
      → Stays (write_compile_progress w job started status stage stages n)
  unfolding write_compile_progress
  end-Stays started status stage stages n =
      progress-Stays (end_payload w job started status stage stages n)

  renders-Stays : (l : List (String × Option String)) → Stays (upload_renders w job l)
  unfolding upload_renders
  renders-Stays [] = Stays-pure tt
  renders-Stays ((stem, none) ∷ l) = renders-Stays l
  renders-Stays ((stem, some body) ∷ l) =
      Stays-bind _ _ (Stays-upload w _ _ _) (λ _. renders-Stays l)

  sheets-Stays : Stays (upload_sheet_renders w job)
  unfolding upload_sheet_renders
  sheets-Stays = search (stays_rules, renders-Stays) depth 12

  envelope-Stays : (e : Fields) → Stays (upload_envelope w job e)
  unfolding upload_envelope
  envelope-Stays e = search stays_rules depth 12

  fingerprint-Stays : (m : Json) → Stays (write_fingerprint w job m)
  unfolding write_fingerprint
  fingerprint-Stays m = search stays_rules depth 12

  atoms-Stays : (r : CompileResult) → Stays (upload_atoms w job r)
  unfolding upload_atoms
  atoms-Stays r = search stays_rules depth 14

  sidecars-Stays : (scope : Json) (r : CompileResult) → Stays (upload_sidecars w job scope r)
  unfolding upload_sidecars
  sidecars-Stays scope r = search (stays_rules, atoms-Stays) depth 16

  deliver-Stays :
      (manifest : Json) (started : String) (r : CompileResult)
      → Stays (deliver w job manifest started r)
  unfolding deliver
  deliver-Stays manifest started r =
      search
        (
          stays_rules, end-Stays, write_status-Stays, sheets-Stays, envelope-Stays,
          fingerprint-Stays, sidecars-Stays,
        )
        depth 20

  pub do_compile-Stays : (manifest : Json) → Stays (do_compile w job manifest)
  unfolding do_compile
  do_compile-Stays manifest =
      search
        (
          stays_rules, scrub_stale-Stays, assert_tmp_has_space-Stays, artifacts-Stays,
          write_status-Stays, progress-Stays, reports-Stays, deliver-Stays,
        )
        depth 20
