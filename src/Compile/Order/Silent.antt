-- ===== src/Compile/Order/Silent.antt =====
-- The steps of a compile before the envelope, none of which says "done" in the progress document.
use parser_os_worker.Active.{mark_compile_active, marker}
use parser_os_worker.Base.{
  Bool, List, Option, String, [], false, false≢true, length, none, not, refl, some, str_eq, true, ℕ,
  ◌&&◌, ◌∷◌, ◌≡◌,
}
use parser_os_worker.Compile.{
  seed_payload, stage_payload, upload_progress, upload_renders, upload_sheet_renders,
  write_compile_progress, write_progress, write_reports,
}
use parser_os_worker.Documents.{is_text}
use parser_os_worker.Download.{download_artifacts, download_url, fetch_artifact}
use parser_os_worker.Json.{Fields, Json, fields, find, get, merge, nat, num, obj, put, str}
use parser_os_worker.Message.{JobMessage}
use parser_os_worker.Paths.{progress_blob_path}
use parser_os_worker.Service.{
  Body, Call, CompileResult, Event, Host, StageReport, Stages, did, document, failed, upload,
}
use parser_os_worker.Service.Action.{Action}
use parser_os_worker.Service.Only.{Misses, Only, Only-bind, Only-pure}
use parser_os_worker.Service.Only.Rules.{Only-upload, only_rules}
use parser_os_worker.Status.{is_terminal, write_status}

abbrev says_done : Body → Bool
says_done (document (obj d)) = is_text "done" (get "status" d)
says_done _ = false

-- an upload of the progress document of a deal that says "done", whether it came back or raised
abbrev pub reported_done : String → Event → Bool
reported_done deal (did (upload p b e)) = says_done b && str_eq p (progress_blob_path deal)
reported_done deal (failed (upload p b e)) = says_done b && str_eq p (progress_blob_path deal)
reported_done deal _ = false

-- an upload of the deal's envelope that came back
abbrev pub stored_envelope : String → Event → Bool
stored_envelope path (did (upload p b e)) = str_eq p path
stored_envelope path _ = false

-- every call but an upload of the deal's progress document that says "done"
abbrev pub is_quiet : String → Call → Bool
is_quiet deal (upload p b e) = not (says_done b && str_eq p (progress_blob_path deal))
is_quiet deal _ = true

not-true : (b : Bool) → not b ≡ true → b ≡ false
not-true true h = absurd (false≢true h)
not-true false h = refl

pub quiet-Misses-reported : (deal : String) → Misses (is_quiet deal) (reported_done deal)
quiet-Misses-reported deal (upload p b e) h = (not-true _ h, not-true _ h)
quiet-Misses-reported deal c h = (refl, refl)

module _ (w : Host) (job : JobMessage) where
  abbrev pub Hushed : {A : Type 0} → Action A → Type 1
  Hushed m = Only (is_quiet job.deal_id) m

  pub artifact-Hushed : (a : Fields) → Hushed (fetch_artifact w a)
  unfolding fetch_artifact download_url
  artifact-Hushed a = search only_rules depth 12

  pub artifacts-Hushed : (l : List Fields) → Hushed (download_artifacts w l)
  unfolding download_artifacts
  artifacts-Hushed [] = Only-pure tt
  artifacts-Hushed (a ∷ l) = Only-bind _ _ (artifact-Hushed a) (λ _. artifacts-Hushed l)

  pub mark-Hushed : (stage : Json) → Hushed (mark_compile_active w job.job stage)
  unfolding mark_compile_active marker get find
  mark-Hushed stage = search only_rules depth 12

  pub seed-Hushed : (started : String) → Hushed (upload_progress w job (seed_payload w job started))
  unfolding upload_progress seed_payload get find
  seed-Hushed started = search only_rules depth 12

  pub stage-Hushed : (started : String) (r : StageReport) → Hushed (write_progress w job started r)
  unfolding write_progress stage_payload get find
  stage-Hushed started r = search (only_rules, mark-Hushed) depth 12

  pub reports-Hushed :
      (started : String) (l : List StageReport) → Hushed (write_reports w job started l)
  unfolding write_reports
  reports-Hushed started [] = Only-pure tt
  reports-Hushed started (r ∷ l) =
      Only-bind _ _ (stage-Hushed started r) (λ _. reports-Hushed started l)

  pub projection-Hushed :
      (started : String) (stage : Json) (stages : Stages) (n : ℕ)
      → Hushed (write_compile_progress w job started "running" stage stages n)
  unfolding write_compile_progress get find
  projection-Hushed started stage stages n = search only_rules depth 12

  pub compiling-Hushed : Hushed (
      write_status w job.job "running"
        (fields (("stage", str "compile") ∷ ("percent_complete", num (nat 10)) ∷ [])))
  unfolding write_status is_terminal get find merge put
  compiling-Hushed = search only_rules depth 12

  pub projecting-Hushed :
      (r : CompileResult)
      → Hushed (
          write_status w job.job "running" (
            fields (
              ("stage", str "projection")
              ∷ ("percent_complete", num (nat 85))
              ∷ ("entity_count", num (nat r.output.entities))
              ∷ ("atom_count", num (nat (length r.output.atoms)))
              ∷ [])))
  unfolding write_status is_terminal get find merge put
  projecting-Hushed r = search only_rules depth 12

  renders-Hushed : (l : List (String × Option String)) → Hushed (upload_renders w job l)
  unfolding upload_renders
  renders-Hushed [] = Only-pure tt
  renders-Hushed ((stem, none) ∷ l) = renders-Hushed l
  renders-Hushed ((stem, some body) ∷ l) =
      Only-bind _ _ (Only-upload w _ _ _ refl) (λ _. renders-Hushed l)

  pub sheets-Hushed : Hushed (upload_sheet_renders w job)
  unfolding upload_sheet_renders
  sheets-Hushed = search (only_rules, renders-Hushed) depth 12
