-- ===== src/FetchMl/Script.antt =====
-- The script itself. sys.exit is `exit`: nothing in the script catches SystemExit. The module-level dict
-- `receipt` is the state's `notes`.
pub mod Effects
pub mod Account
pub mod Receipt
pub mod Gate
use parser_os_worker.Base.{
  Bool, List, String, [], false, first_part, if◌then◌else◌, is_empty, is_some, str_eq, true, ℕ,
  ◌++◌, ◌+◌, ◌<>◌, ◌==◌, ◌∷◌,
}
use parser_os_worker.Dedup.{sorted}
use parser_os_worker.FetchMl.{
  Paths, add_root, add_roots, dir_name, getenv, is_nil, is_on, is_os_error, is_skipped_blob,
  join_path, join_with, keys, nested_archives, path_fields, root_archives, without,
}
use parser_os_worker.FetchMl.Required.{
  dst, is_optional, missing_of, missing_text, no_source_of, receipt_path, required_paths,
}
use parser_os_worker.Json.{
  Fields, Json, arr, bool, fields, find, nat, num, obj, put, str, text_items,
}
use parser_os_worker.Json.Numbers.{show_nat}
use parser_os_worker.Service.{
  Exc, History, Host, answer, connect_artifacts, extract_all, failure, fetch, fetch_artifact_to,
  file_size, list_artifacts, list_dir, make_dir, open_tar, path_exists, remove_file, replied,
  write_json,
}
use parser_os_worker.Service.Action.{
  Action, ask, catch, exit, gets, modify, pure, raise, ◌>>=◌, ◌>>◌,
}

module _ (w : Host) (env : Paths) (real_path : String → String) (clock : History → Json) where
  -- receipt[key] = value
  unfoldable pub note : String → Json → Action (Unit {0})
  note key value = modify (λ s. record s { notes = put key value s.notes })

  -- receipt.setdefault(key, value)
  set_default : String → Json → Fields → Fields
  set_default key value d = if is_some (find key d) then d else put key value d

  -- except OSError: a message
  unfoldable pub except_os_error : Action (Unit {0}) → Action (Unit {0})
  except_os_error m = catch m (λ e. if is_os_error e then pure tt else raise e)

  -- _write_receipt
  unfoldable pub write_receipt : Action (Unit {0})
  unfolding set_default except_os_error
  write_receipt = except_os_error (do
    ask w (fetch (make_dir (dst env)))
    now ← gets (λ s. clock s.log)
    modify (λ s. record s { notes = set_default "checked_at" now s.notes })
    notes ← gets (λ s. s.notes)
    ask w (fetch (write_json (receipt_path env) (obj notes))))

  -- _die
  unfoldable pub die : String → Action (Unit {0})
  unfolding note write_receipt is_optional
  die msg = do
    note "ok" (bool false)
    note "error" (str msg)
    write_receipt
    exit (if is_optional env then 0 else 1)

  -- os.path.join(DST, b.name), which is downloaded to
  fetch_one : String → Action (Unit {0})
  fetch_one name = do
    let p = join_path (dst env) name
    ask w (fetch (make_dir (if is_empty (dir_name p) then (dst env) else dir_name p)))
    ask w (fetch (fetch_artifact_to name p))

  -- the loop over cc.list_blobs(): downloaded, skipped, seen_roots
  unfoldable pub fetch_all : Bool → List String → ℕ × ℕ × List String → Action (ℕ × ℕ × List String)
  unfolding fetch_one add_root
  fetch_all registry [] r = pure r
  fetch_all registry (name ∷ names) (n, skipped, roots) =
      let roots' = add_root (first_part name) roots in
      elim (is_skipped_blob registry name) [
        | true ↦ fetch_all registry names (n, skipped + 1, roots')
        | false ↦ fetch_one name >> fetch_all registry names (n + 1, skipped, roots')
      ]

  -- _drop_archive
  unfoldable pub drop_archive : String → Action (Unit {0})
  unfolding except_os_error
  drop_archive p =
      except_os_error (do freed ← ask w (fetch (file_size p)); ask w (fetch (remove_file p)))

  -- tarfile.open and extractall, which before 3.12 takes no filter
  unpack : String → String → Action (Unit {0})
  unpack tp dir = do
    ask w (fetch (open_tar tp))
    catch (ask w (fetch (extract_all tp dir true))) (λ e.
        if str_eq e.kind "TypeError" then ask w (fetch (extract_all tp dir false)) else raise e)

  extract_error : String → Exc → String
  extract_error name e = name <> ": " <> e.kind <> ": " <> e.message

  -- seen_roots and extract_errors
  abbrev pub Extracted : Type 0
  Extracted = List String × List String

  -- the try of one archive: `m` unpacks it and says what roots there are then
  unfoldable pub extract_one : String → String → Action (List String) → Extracted → Action Extracted
  unfolding extract_error drop_archive
  extract_one name tp m (roots, errors) = do
    r ← catch (do roots' ← m; pure (answer roots')) (λ e. pure (failure e))
    replied r (λ e. pure (roots, errors ++ (extract_error name e ∷ [])))
        λ roots'.
          catch (do drop_archive tp; pure (roots', errors))
            (λ e. pure (roots', errors ++ (extract_error name e ∷ [])))

  -- the loop over the archives that go to a directory of their own
  pub extract_nested : Paths → Extracted → Action Extracted
  unfolding unpack extract_one add_root
  extract_nested [] r = pure r
  extract_nested ((name, sub) ∷ rest) r = do
    let tp = join_path (dst env) name
    there ← ask w (fetch (path_exists tp))
    r' ←
        if there
        then (do
          ask w (fetch (make_dir (join_path (dst env) sub)))
          extract_one name tp (do unpack tp (join_path (dst env) sub); pure (add_root sub r.0)) r)
        else pure r
    extract_nested rest r'

  -- the loop over the archives that go to DST
  pub extract_root : List String → Extracted → Action Extracted
  unfolding unpack extract_one add_roots
  extract_root [] r = pure r
  extract_root (name ∷ rest) r = do
    let tp = join_path (dst env) name
    there ← ask w (fetch (path_exists tp))
    r' ←
        if there
        then extract_one name tp
            (do
              unpack tp (dst env)
              listed ← ask w (fetch (list_dir (dst env)))
              pure (add_roots listed r.0))
            r
        else pure r
    extract_root rest r'

  -- {k: p for k, p in required.items() if not os.path.exists(p)}
  unfoldable pub absent_of : Paths → Action Paths
  absent_of [] = pure []
  absent_of ((k, p) ∷ rest) = do
    there ← ask w (fetch (path_exists p))
    more ← absent_of rest
    pure (if there then more else (k, p) ∷ more)

  -- from `required = ...` to the end of the try
  unfoldable pub check : List String → List String → Action (Unit {0})
  unfolding absent_of note die
  check roots errors = do
    absent ← absent_of (required_paths env real_path)
    let missing = missing_of env real_path roots absent
    note "required" (obj (path_fields (required_paths env real_path)))
    note "missing" (arr (text_items missing))
    note "no_source" (arr (text_items (no_source_of env real_path roots absent)))
    note "present"
        (arr (text_items (sorted (without (keys absent) (keys (required_paths env real_path))))))
    if is_nil missing then pure tt else die (missing_text env real_path missing)
    if is_nil errors then pure tt else die ("extract failed: " <> join_with "; " errors)
    note "ok" (bool true)
    write_receipt

  -- the try
  fetch_body : Action (Unit {0})
  unfolding fetch_all extract_nested extract_root check note die
  fetch_body = do
    ask w (fetch connect_artifacts)
    ask w (fetch (make_dir (dst env)))
    let registry = is_on (getenv env "FETCH_ML_INCLUDE_REGISTRY" "")
    names ← ask w (fetch list_artifacts)
    found ← fetch_all registry names (0, 0, [])
    note "downloaded" (num (nat found.0))
    note "skipped" (num (nat found.1))
    if found.0 == 0
        then die
            ("downloaded 0 artifact files from ml-artifacts (" <> show_nat found.1 <> " skipped)")
        else pure tt
    nested ← extract_nested nested_archives (found.2, [])
    extracted ← extract_root root_archives nested
    note "extract_errors" (arr (text_items extracted.1))
    check extracted.0 extracted.1

  -- the module
  unfoldable pub fetch_ml : Action (Unit {0})
  unfolding fetch_body die
  fetch_ml = do
    modify (λ s. record s {
      notes = fields (("dst", str (dst env)) ∷ ("optional", bool (is_optional env)) ∷ []);
    })
    if is_empty (getenv env "AZURE_STORAGE_CONNECTION_STRING" "")
        then die "no AZURE_STORAGE_CONNECTION_STRING; nothing could be fetched"
        else pure tt
    catch fetch_body (λ e. die (e.kind <> ": " <> e.message))
