-- ===== src/FetchMl/Script/Effects.antt =====
-- What the steps of fetch_ml.py leave alone, the receipt and the process, and the exit codes of the others.
use parser_os_worker.Base.{
  Bool, Bool-cases, List, String, [], false, if◌then◌else◌, inl, inr, true, ℕ, ◌∷◌,
}
use parser_os_worker.FetchMl.{Paths, is_os_error, is_skipped_blob, nested_archives, root_archives}
use parser_os_worker.FetchMl.Quiet.{
  Quiet, Quiet-bind, Quiet-connect, Quiet-list_artifacts, Quiet-make_dir, Quiet-path_exists,
  Quiet-pure, Quiet-write_json, Stays-of_Quiet, quiet_rules,
}
use parser_os_worker.FetchMl.Required.{is_optional}
use parser_os_worker.FetchMl.Script.{
  Extracted, absent_of, check, die, drop_archive, except_os_error, extract_nested, extract_one,
  extract_root, fetch_all, fetch_body, fetch_ml, fetch_one, note, unpack, write_receipt,
}
use parser_os_worker.Json.{Json}
use parser_os_worker.Service.{History, Host}
use parser_os_worker.Service.Action.{Action, pure}
use parser_os_worker.Service.Codes.{Codes, Codes-bind, Codes-catch, Codes-exit, Codes-of_Stays}
use parser_os_worker.Service.Returns.{
  Stays, Stays-bind, Stays-catch, Stays-gets, Stays-if, Stays-modify, Stays-pure, Stays-raise,
}

module _ (w : Host) (env : Paths) (real_path : String → String) (clock : History → Json) where
  fetch_one-Quiet : (name : String) → Quiet (fetch_one w env real_path clock name)
  unfolding fetch_one
  fetch_one-Quiet name = search quiet_rules depth 12

  pub fetch_all-Quiet :
      (registry : Bool) (names : List String) (r : ℕ × ℕ × List String)
      → Quiet (fetch_all w env real_path clock registry names r)
  unfolding fetch_all
  fetch_all-Quiet registry [] r = Quiet-pure r
  fetch_all-Quiet registry (name ∷ names) (n, skipped, roots) =
      elim (Bool-cases (is_skipped_blob registry name)) [
        | inl e ↦ rw (e, fetch_all) (fetch_all-Quiet registry names _)
        | inr e ↦
            rw (e, fetch_all)
              (Quiet-bind _ _ (fetch_one-Quiet name) (λ _. fetch_all-Quiet registry names _))
      ]

  except_os_error-Quiet :
      (m : Action (Unit {0})) → Quiet m → Quiet (except_os_error w env real_path clock m)
  unfolding except_os_error
  except_os_error-Quiet m q = search quiet_rules depth 12

  drop_archive-Quiet : (p : String) → Quiet (drop_archive w env real_path clock p)
  unfolding drop_archive
  drop_archive-Quiet p = search (quiet_rules, except_os_error-Quiet) depth 12

  unpack-Quiet : (tp dir : String) → Quiet (unpack w env real_path clock tp dir)
  unfolding unpack
  unpack-Quiet tp dir = search quiet_rules depth 12

  extract_one-Quiet :
      (name tp : String) (m : Action (List String)) (r : Extracted w env real_path clock)
      → Quiet m
      → Quiet (extract_one w env real_path clock name tp m r)
  unfolding extract_one
  extract_one-Quiet name tp m (roots, errors) q = search (quiet_rules, drop_archive-Quiet) depth 14

  pub extract_nested-Quiet :
      (l : Paths) (r : Extracted w env real_path clock)
      → Quiet (extract_nested w env real_path clock l r)
  unfolding extract_nested
  extract_nested-Quiet [] r = Quiet-pure r
  extract_nested-Quiet ((name, sub) ∷ rest) r =
      search (quiet_rules, unpack-Quiet, extract_one-Quiet, extract_nested-Quiet rest) depth 14

  pub extract_root-Quiet :
      (l : List String) (r : Extracted w env real_path clock)
      → Quiet (extract_root w env real_path clock l r)
  unfolding extract_root
  extract_root-Quiet [] r = Quiet-pure r
  extract_root-Quiet (name ∷ rest) r =
      search (quiet_rules, unpack-Quiet, extract_one-Quiet, extract_root-Quiet rest) depth 14

  pub absent_of-Quiet : (l : Paths) → Quiet (absent_of w env real_path clock l)
  unfolding absent_of
  absent_of-Quiet [] = Quiet-pure []
  absent_of-Quiet ((k, p) ∷ rest) =
      Quiet-bind _ _ (Quiet-path_exists w p)
        (λ there. Quiet-bind _ _ (absent_of-Quiet rest) (λ more. Quiet-pure _))

  -- what ends the script ends it with the code of `die`
  abbrev pub die_code : ℕ
  die_code = if is_optional env then 0 else 1

  quietly : {A : Type 0} (m : Action A) → Quiet m → Codes die_code m
  quietly m q = Codes-of_Stays die_code m (Stays-of_Quiet m q)

  note-Codes : (k : String) (j : Json) → Codes die_code (note w env real_path clock k j)
  unfolding note
  note-Codes k j = Codes-of_Stays die_code _ (Stays-modify _)

  write_receipt-Stays : Stays (write_receipt w env real_path clock)
  unfolding write_receipt except_os_error
  write_receipt-Stays =
      Stays-catch _ _
        (Stays-bind _ _ (Stays-of_Quiet _ (Quiet-make_dir w _)) λ _.
          Stays-bind _ _ (Stays-gets _) λ _.
            Stays-bind _ _ (Stays-modify _)
              λ _. Stays-bind _ _ (Stays-gets _) (λ _. Stays-of_Quiet _ (Quiet-write_json w _ _)))
        (λ e. Stays-if (is_os_error e) _ _ (Stays-pure tt) (Stays-raise e))

  write_receipt-Codes : Codes die_code (write_receipt w env real_path clock)
  write_receipt-Codes = Codes-of_Stays die_code _ write_receipt-Stays

  pub die-Codes : (msg : String) → Codes die_code (die w env real_path clock msg)
  unfolding die
  die-Codes msg = Codes-bind die_code _ _ (note-Codes _ _) λ _.
      Codes-bind die_code _ _ (note-Codes _ _)
        λ _. Codes-bind die_code _ _ write_receipt-Codes (λ _. Codes-exit die_code)

  unless_die :
      (b : Bool) (msg : String)
      → Codes die_code (if b then pure tt else die w env real_path clock msg)
  unless_die true msg = quietly _ (Quiet-pure tt)
  unless_die false msg = die-Codes msg

  if_die :
      (b : Bool) (msg : String)
      → Codes die_code (if b then die w env real_path clock msg else pure tt)
  if_die true msg = die-Codes msg
  if_die false msg = quietly _ (Quiet-pure tt)

  check-Codes :
      (roots errors : List String) → Codes die_code (check w env real_path clock roots errors)
  unfolding check
  check-Codes roots errors = Codes-bind die_code _ _ (quietly _ (absent_of-Quiet _)) λ _.
      Codes-bind die_code _ _ (note-Codes _ _) λ _. Codes-bind die_code _ _ (note-Codes _ _) λ _.
        Codes-bind die_code _ _ (note-Codes _ _) λ _. Codes-bind die_code _ _ (note-Codes _ _) λ _.
          Codes-bind die_code _ _ (unless_die _ _) λ _.
            Codes-bind die_code _ _ (unless_die _ _)
              λ _. Codes-bind die_code _ _ (note-Codes _ _) (λ _. write_receipt-Codes)

  fetch_body-Codes : Codes die_code (fetch_body w env real_path clock)
  unfolding fetch_body
  fetch_body-Codes = Codes-bind die_code _ _ (quietly _ (Quiet-connect w)) λ _.
      Codes-bind die_code _ _ (quietly _ (Quiet-make_dir w _)) λ _.
        Codes-bind die_code _ _ (quietly _ (Quiet-list_artifacts w)) λ names.
          Codes-bind die_code _ _ (quietly _ (fetch_all-Quiet _ names _)) λ found.
            Codes-bind die_code _ _ (note-Codes _ _) λ _.
              Codes-bind die_code _ _ (note-Codes _ _) λ _.
                Codes-bind die_code _ _ (if_die _ _) λ _.
                  Codes-bind die_code _ _
                    (quietly _ (extract_nested-Quiet nested_archives (found.2, [])))
                    λ nested.
                      Codes-bind die_code _ _ (quietly _ (extract_root-Quiet root_archives nested))
                        λ _. Codes-bind die_code _ _ (note-Codes _ _) (λ _. check-Codes _ _)

  pub fetch_ml-Codes : Codes die_code (fetch_ml w env real_path clock)
  unfolding fetch_ml
  fetch_ml-Codes = Codes-bind die_code _ _ (Codes-of_Stays die_code _ (Stays-modify _)) λ _.
      Codes-bind die_code _ _ (if_die _ _)
        λ _. Codes-catch die_code _ _ fetch_body-Codes (λ e. die-Codes _)
