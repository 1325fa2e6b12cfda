-- ===== src/FetchMl/Script/Receipt.antt =====
-- fetch_ml.py: what stands in the receipt when the checks at the end of the script let it go on.
use parser_os_worker.Base.{
  Bool, Bool-cases, List, String, [], false, if◌then◌else◌, inl, inr, is_some, refl, str_eq, true,
  ℕ, ◌==◌, ◌∙◌, ◌∷◌, ◌≡◌,
}
use parser_os_worker.FetchMl.{Paths, is_nil, is_os_error}
use parser_os_worker.FetchMl.Quiet.{Keeps-of_Quiet, Quiet-make_dir, Quiet-write_json}
use parser_os_worker.FetchMl.Required.{missing_of, no_source_of, required_paths}
use parser_os_worker.FetchMl.Script.{check, die, except_os_error, note, set_default, write_receipt}
use parser_os_worker.FetchMl.Script.Account.{Reported, absent_triple, all-Reported}
use parser_os_worker.Json.{Fields, Json, arr, bool, find, get, nat, nil, num, put, text_items}
use parser_os_worker.Json.Lookup.{get-put, get-put_other}
use parser_os_worker.Service.{History, Host}
use parser_os_worker.Service.Action.{Action, Proc, modify, pure, ◌>>◌}
use parser_os_worker.Service.Keeps.{
  Keeps, Keeps-bind, Keeps-catch, Keeps-gets, Keeps-if, Keeps-modify, Keeps-pure, Keeps-raise,
}
use parser_os_worker.Service.Triples.{
  Any, Triple, Triple-bind, Triple-exit, Triple-keeps, Triple-pure, Triple-weaken, triple_any,
}

-- what the receipt says when the gate is reached
abbrev pub Downloaded : ℕ → List String → Fields → Type 0
Downloaded n errors d =
    (get "downloaded" d ≡ num (nat n)) × (get "extract_errors" d ≡ arr (text_items errors))

pub impossible : {Q : Unit {0} → Proc → Type 0} (m : Action (Unit {0})) → Triple (λ s. ⊥) m Q Any
impossible m = record { at = λ s p. absurd p }

-- another key's value
pub get-put_kept :
    (q k : String) (v j : Json) (d : Fields)
    → str_eq k q ≡ false
    → get q d ≡ v
    → get q (put k j d) ≡ v
get-put_kept q k v j d h e = get-put_other q k j d h ∙ e

nil_items : (l : List String) → is_nil l ≡ true → arr (text_items l) ≡ arr nil
nil_items [] h = refl
nil_items (s ∷ l) h = cc

module _ (w : Host) (env : Paths) (real_path : String → String) (clock : History → Json) where
  -- what it says when the checks are passed
  abbrev pub Ready : Fields → Type 0
  Ready d =
      (get "ok" d ≡ bool true)
      × (get "missing" d ≡ arr nil)
      × (get "extract_errors" d ≡ arr nil)
      × ((n : ℕ) × (get "downloaded" d ≡ num (nat n)) × ((n == 0) ≡ false))
      × ((ns : List String) × (get "no_source" d ≡ arr (text_items ns))
          × Reported w env real_path clock (required_paths env real_path) ns)

  pub Triple-note :
      (P Q : Fields → Type 0) (k : String) (j : Json)
      → ((d : Fields) → P d → Q (put k j d))
      → Triple (λ s. P s.notes) (note w env real_path clock k j) (λ _ s. Q s.notes) Any
  unfolding note modify
  Triple-note P Q k j h = record { at = λ s p. h s.notes p }

  pub die-Never :
      {P : Proc → Type 0} {Q : Unit {0} → Proc → Type 0} (msg : String)
      → Triple P (die w env real_path clock msg) Q Any
  unfolding die
  die-Never msg =
      Triple-bind _ _ (triple_any _)
        λ _. Triple-bind _ _ (triple_any _) λ _. Triple-bind _ _ (triple_any _) (λ _. Triple-exit _)

  module _ (n : ℕ) (errors : List String) (some_there : (n == 0) ≡ false) where
    -- with the lists of the gate
    abbrev Noted : List String → List String → Fields → Type 0
    Noted missing ns d =
        Downloaded n errors d
        × (get "missing" d ≡ arr (text_items missing))
        × (get "no_source" d ≡ arr (text_items ns))

    Downloaded-put :
        (k : String) (j : Json) (d : Fields)
        → str_eq k "downloaded" ≡ false
        → str_eq k "extract_errors" ≡ false
        → Downloaded n errors d
        → Downloaded n errors (put k j d)
    Downloaded-put k j d e f (a, b) =
        (get-put_kept "downloaded" k _ j d e a, get-put_kept "extract_errors" k _ j d f b)

    Ready-checked : (j : Json) (d : Fields) → Ready d → Ready (put "checked_at" j d)
    Ready-checked j d (a, b, c, (k, e, f), (ns, g, h)) = (
      get-put_kept "ok" "checked_at" _ j d refl a,
      get-put_kept "missing" "checked_at" _ j d refl b,
      get-put_kept "extract_errors" "checked_at" _ j d refl c,
      (k, get-put_kept "downloaded" "checked_at" _ j d refl e, f),
      (ns, get-put_kept "no_source" "checked_at" _ j d refl g, h),
    )

    default-Ready :
        (j : Json) (d : Fields)
        → Ready d
        → Ready (set_default w env real_path clock "checked_at" j d)
    unfolding set_default
    default-Ready j d r = elim (Bool-cases (is_some (find "checked_at" d))) [
      | inl e ↦ rw e r
      | inr e ↦ rw e (Ready-checked j d r)
    ]

    receipt-Keeps : Keeps (λ s. Ready s.notes) (write_receipt w env real_path clock)
    unfolding write_receipt except_os_error
    receipt-Keeps =
        Keeps-catch _ _
          (Keeps-bind _ _ (Keeps-of_Quiet Ready _ (Quiet-make_dir w _)) λ _.
            Keeps-bind _ _ (Keeps-gets _) λ now.
              Keeps-bind _ _ (Keeps-modify _ (λ s r. default-Ready now s.notes r)) λ _.
                Keeps-bind _ _ (Keeps-gets _) λ _. Keeps-of_Quiet Ready _ (Quiet-write_json w _ _))
          (λ e. Keeps-if (is_os_error e) _ _ (Keeps-pure tt) (Keeps-raise e))

    abbrev Passed : Unit {0} → Proc → Type 0
    Passed _ s = Ready s.notes

    -- the end of the gate
    passing :
        (missing ns : List String)
        → is_nil missing ≡ true
        → is_nil errors ≡ true
        → Reported w env real_path clock (required_paths env real_path) ns
        → Triple
            (λ s. Noted missing ns s.notes)
            (note w env real_path clock "ok" (bool true) >> write_receipt w env real_path clock)
            Passed
            Any
    passing missing ns e f listed =
        Triple-bind _ _
          (Triple-note (Noted missing ns) Ready "ok" (bool true) λ d ((a, b), c, g). (
            get-put "ok" (bool true) d,
            get-put_kept "missing" "ok" _ _ d refl c ∙ nil_items missing e,
            get-put_kept "extract_errors" "ok" _ _ d refl b ∙ nil_items errors f,
            (n, get-put_kept "downloaded" "ok" _ _ d refl a, some_there),
            (ns, get-put_kept "no_source" "ok" _ _ d refl g, listed),
          ))
          (λ _. Triple-weaken _ (Triple-keeps _ receipt-Keeps) (λ a s p. p) (λ s p. tt))

    unless_die :
        (P : Proc → Type 0) (b : Bool) (msg : String) (m : Action (Unit {0}))
        → (b ≡ true → Triple P m Passed Any)
        → Triple P ((if b then pure tt else die w env real_path clock msg) >> m) Passed Any
    unless_die P true msg m t = Triple-bind _ _ (Triple-pure tt (λ s p. p)) (λ _. t refl)
    unless_die P false msg m t = Triple-bind _ _ (die-Never msg) (λ _. impossible m)

    pub check-Ready :
        (roots : List String)
        → Triple
            (λ s. Downloaded n errors s.notes)
            (check w env real_path clock roots errors)
            Passed
            Any
    unfolding check
    check-Ready roots =
        Triple-bind _ _
          (absent_triple w env real_path clock (Downloaded n errors) (required_paths env real_path))
          λ absent.
            let missing = missing_of env real_path roots absent in
            let ns = no_source_of env real_path roots absent in
            record {
              at = λ s (p, acc).
                  (Triple-bind _ _
                      (Triple-note (Downloaded n errors) (Downloaded n errors) "required" _
                        (λ d a. Downloaded-put "required" _ d refl refl a))
                      λ _.
                        Triple-bind _ _
                          (Triple-note (Downloaded n errors)
                            (λ d.
                              Downloaded n errors d × (get "missing" d ≡ arr (text_items missing)))
                            "missing" _
                            (λ d a.
                              (Downloaded-put "missing" _ d refl refl a, get-put "missing" _ d)))
                          λ _.
                            Triple-bind _ _
                              (Triple-note _ (Noted missing ns) "no_source" _ (λ d (a, b). (
                                Downloaded-put "no_source" _ d refl refl a,
                                get-put_kept "missing" "no_source" _ _ d refl b,
                                get-put "no_source" _ d,
                              )))
                              λ _.
                                Triple-bind _ _
                                  (Triple-note (Noted missing ns) (Noted missing ns) "present" _
                                    (λ d (a, b, c). (
                                      Downloaded-put "present" _ d refl refl a,
                                      get-put_kept "missing" "present" _ _ d refl b,
                                      get-put_kept "no_source" "present" _ _ d refl c,
                                    )))
                                  λ _. unless_die _ (is_nil missing) _ _ (λ e.
                                    unless_die _ (is_nil errors) _ _ (λ f. passing missing ns e f (
                                      all-Reported w env real_path clock roots absent
                                        (required_paths env real_path) e acc)))).at
                    s p;
            }
