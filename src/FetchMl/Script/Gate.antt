-- ===== src/FetchMl/Script/Gate.antt =====
-- What a container that starts has: the gate at the end of fetch_ml.py.
use parser_os_worker.Base.{
  Bool, String, [], arith, false, if◌then◌else◌, refl, true, ℕ, ◌==◌, ◌≡◌, ◌≢◌,
}
use parser_os_worker.FetchMl.{Paths, nested_archives, root_archives}
use parser_os_worker.FetchMl.Quiet.{Keeps-of_Quiet}
use parser_os_worker.FetchMl.Required.{is_optional}
use parser_os_worker.FetchMl.Script.{
  Extracted, check, die, extract_nested, extract_root, fetch_body, fetch_ml, note,
}
use parser_os_worker.FetchMl.Script.Effects.{
  die_code, extract_nested-Quiet, extract_root-Quiet, fetch_ml-Codes,
}
use parser_os_worker.FetchMl.Script.Receipt.{
  Downloaded, Ready, Triple-note, check-Ready, die-Never, get-put_kept, impossible,
}
use parser_os_worker.Json.{Fields, Json, arr, get, nat, num, text_items}
use parser_os_worker.Json.Lookup.{get-put}
use parser_os_worker.Service.{Exc, History, Host}
use parser_os_worker.Service.Action.{Action, Outcome, Proc, exited, ok, pure, raised, ◌>>=◌, ◌>>◌}
use parser_os_worker.Service.Codes.{ExitIs}
use parser_os_worker.Service.Triples.{
  Any, Ends, Triple, Triple-bind, Triple-catch, Triple-keeps, Triple-pure, Triple-weaken,
  triple_any,
}

-- the exit status of a run that ends so: the last line, an exception, or sys.exit
abbrev pub exit_status : Outcome (Unit {0}) → ℕ
exit_status (ok a) = 0
exit_status (raised e) = 1
exit_status (exited n) = n

module _ (w : Host) (env : Paths) (real_path : String → String) (clock : History → Json) where
  abbrev Readied : Unit {0} → Proc → Type 0
  Readied _ s = Ready w env real_path clock s.notes

  -- what was downloaded is still noted after the extractions
  extracting :
      (n : ℕ) (r : Extracted w env real_path clock)
      → (n == 0) ≡ false
      → Triple
          (λ s. get "downloaded" s.notes ≡ num (nat n))
          (extract_nested w env real_path clock nested_archives r >>= λ nested.
            extract_root w env real_path clock root_archives nested >>= λ extracted.
            note w env real_path clock "extract_errors" (arr (text_items extracted.1))
            >> check w env real_path clock extracted.0 extracted.1)
          Readied
          Any
  extracting n r h =
      let Q : Fields → Type 0 = λ d. get "downloaded" d ≡ num (nat n) in
      Triple-bind _ _
        (Triple-weaken _
          (Triple-keeps _
            (Keeps-of_Quiet Q _ (extract_nested-Quiet w env real_path clock nested_archives r)))
          (λ a s p. p) (λ s p. tt))
        λ nested.
          Triple-bind _ _
            (Triple-weaken _
              (Triple-keeps _ (
                Keeps-of_Quiet Q _ (extract_root-Quiet w env real_path clock root_archives nested)))
              (λ a s p. p) (λ s p. tt))
            λ extracted.
              Triple-bind _ _
                (Triple-note w env real_path clock Q (Downloaded n extracted.1) "extract_errors" _
                  (λ d a. (
                    get-put_kept "downloaded" "extract_errors" _ _ d refl a,
                    get-put "extract_errors" _ d,
                  )))
                λ _. check-Ready w env real_path clock n extracted.1 h extracted.0

  after_count :
      (P : Proc → Type 0) (b : Bool) (msg : String) (m : Action (Unit {0}))
      → (b ≡ false → Triple P m Readied Any)
      → Triple P ((if b then die w env real_path clock msg else pure tt) >> m) Readied Any
  after_count P false msg m t = Triple-bind _ _ (Triple-pure tt (λ s p. p)) (λ _. t refl)
  after_count P true msg m t =
      Triple-bind _ _ (die-Never w env real_path clock msg) (λ _. impossible m)

  body-Ready : Triple Any (fetch_body w env real_path clock) Readied Any
  unfolding fetch_body
  body-Ready = Triple-bind _ _ (triple_any _) λ _. Triple-bind _ _ (triple_any _) λ _.
      Triple-bind _ _ (triple_any _) λ names. Triple-bind _ _ (triple_any _) λ found.
        Triple-bind _ _
          (Triple-note w env real_path clock (λ d. Unit)
            (λ d. get "downloaded" d ≡ num (nat found.0)) "downloaded" _
            (λ d a. get-put "downloaded" _ d))
          λ _.
            Triple-bind _ _
              (Triple-note w env real_path clock _ (λ d. get "downloaded" d ≡ num (nat found.0))
                "skipped" _ (λ d a. get-put_kept "downloaded" "skipped" _ _ d refl a))
              λ _. after_count _ (found.0 == 0) _ _ (λ h. extracting found.0 (found.2, []) h)

  fetch-Ready : Triple Any (fetch_ml w env real_path clock) Readied Any
  unfolding fetch_ml
  fetch-Ready = Triple-bind _ _ (triple_any _) λ _.
      after_count Any _ _ _
        (λ _. Triple-catch _ _ body-Ready (λ e. die-Never w env real_path clock _))

  gate :
      (o : Outcome (Unit {0})) (s : Proc)
      → is_optional env ≡ false
      → exit_status o ≡ 0
      → ExitIs (die_code w env real_path clock) o
      → Ends Readied Any o s
      → Ready w env real_path clock s.notes
  gate (ok a) s opt e c r = r
  gate (raised x) s opt e c r = absurd (omega (arith, e))
  gate (exited n) s opt e c r = absurd (omega (arith, e, rw opt at c))

-- Whatever the services and the disk answer: if ML_ARTIFACTS_OPTIONAL is off and the script ends with
-- status 0, then its receipt says that all is well, that at least one artifact was downloaded, that no
-- extraction failed and that nothing is missing, and each path that the environment configures under the
-- directory was found on the disk or is listed in the receipt as having no source.
pub fetch_ml-Ready :
    (w : Host) (env : Paths) (real_path : String → String) (clock : History → Json) (s : Proc)
    → is_optional env ≡ false
    → exit_status (fetch_ml w env real_path clock s).0 ≡ 0
    → Ready w env real_path clock (fetch_ml w env real_path clock s).1.notes
fetch_ml-Ready w env real_path clock s opt e =
    gate w env real_path clock _ (fetch_ml w env real_path clock s).1 opt e
      ((fetch_ml-Codes w env real_path clock).at s) ((fetch-Ready w env real_path clock).at s tt)

optional_code :
    (w : Host) (env : Paths) (real_path : String → String) (clock : History → Json)
    (o : Outcome (Unit {0}))
    → is_optional env ≡ true
    → ExitIs (die_code w env real_path clock) o
    → ((e : Exc) → o ≢ raised e)
    → exit_status o ≡ 0
optional_code w env real_path clock (exited m) opt c h = rw opt at c
optional_code w env real_path clock (ok a) opt c h = refl
optional_code w env real_path clock (raised x) opt c h = absurd (h x refl)

-- Whatever the services and the disk answer: if ML_ARTIFACTS_OPTIONAL is on and no exception leaves the
-- script, it ends with status 0.
pub fetch_ml-optional :
    (w : Host) (env : Paths) (real_path : String → String) (clock : History → Json) (s : Proc)
    → is_optional env ≡ true
    → ((e : Exc) → (fetch_ml w env real_path clock s).0 ≢ raised e)
    → exit_status (fetch_ml w env real_path clock s).0 ≡ 0
fetch_ml-optional w env real_path clock s opt h =
    optional_code w env real_path clock (fetch_ml w env real_path clock s).0 opt
      ((fetch_ml-Codes w env real_path clock).at s) h
