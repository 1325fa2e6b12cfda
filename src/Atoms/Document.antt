-- ===== src/Atoms/Document.antt =====
-- `_upload_atoms`: the document atoms.json. A `Counter`, and the dict of the artifacts, are
-- association lists in the order of insertion.
pub mod Counts
use parser_os_worker.Atoms.{Atom, UiAtom, serialize_atom, text_or}
use parser_os_worker.Base.{
  List, String, [], get_or, if◌then◌else◌, length, map, str_eq, suc, ℕ, ◌∷◌,
}
use parser_os_worker.Json.{
  Fields, Items, Json, arr, as_dict, bool, cons, dict_or_empty, end, field, fields, find, get, nat,
  nil, num, obj, or_json, str, text_items,
}

-- What `_upload_atoms` reads of the result of a compile. A trace that is no dict is null.
pub record CompileOutput : Type 0 where
  pub atoms : List Atom
  pub entities : ℕ
  pub edges : ℕ
  pub packets : ℕ
  pub trace : Json

abbrev pub Counter : Type 0
Counter = List (String × ℕ)

-- the entry of an artifact in `by_artifact`
pub record Slot : Type 0 where
  pub atom_count : ℕ
  pub by_type : Counter

abbrev pub empty_slot : Slot
empty_slot = record { atom_count = 0; by_type = [] }

module _ {ℓ} {A : Type ℓ} (empty : A) where
  -- d[k] = f(d.setdefault(k, empty))
  unfoldable pub revise : (A → A) → String → List (String × A) → List (String × A)
  revise f k [] = (k, f empty) ∷ []
  revise f k ((i, a) ∷ l) = if str_eq i k then (i, f a) ∷ l else (i, a) ∷ revise f k l

-- counter[k] += 1
unfoldable pub count_one : String → Counter → Counter
unfolding revise
count_one k c = revise 0 suc k c

unfoldable pub enter : String → Slot → Slot
unfolding count_one
enter t s = record { atom_count = suc s.atom_count; by_type = count_one t s.by_type }

pub record Tallies : Type 0 where
  pub type_counter : Counter
  pub by_artifact : List (String × Slot)

-- a.get("source_filename") or "(unknown)"
abbrev pub artifact_of : UiAtom → String
artifact_of a = text_or a.source_filename "(unknown)"

-- one turn of the loop over the rows
unfoldable pub tally : UiAtom → Tallies → Tallies
unfolding count_one enter revise
tally a s = record {
  type_counter = count_one a.atom_type s.type_counter;
  by_artifact = revise empty_slot (enter a.atom_type) (artifact_of a) s.by_artifact;
}

unfoldable pub tally_all : List UiAtom → Tallies → Tallies
unfolding tally
tally_all [] s = s
tally_all (a ∷ rest) s = tally_all rest (tally a s)

abbrev pub no_tallies : Tallies
no_tallies = record { type_counter = []; by_artifact = [] }

abbrev counter_fields : Counter → Fields
counter_fields [] = end
counter_fields ((k, n) ∷ c) = field k (num (nat n)) (counter_fields c)

abbrev slot_fields : List (String × Slot) → Fields
slot_fields [] = end
slot_fields ((k, s) ∷ l) =
    field k
      (obj (
        fields (
          ("atom_count", num (nat s.atom_count))
          ∷ ("by_type", obj (counter_fields s.by_type))
          ∷ [])))
      (slot_fields l)

-- the dict of a row
unfoldable pub ui_fields : UiAtom → Fields
ui_fields a = fields (
    ("id", a.id)
    ∷ ("atom_type", str a.atom_type)
    ∷ ("confidence", a.confidence)
    ∷ ("calibrated_confidence", a.calibrated_confidence)
    ∷ ("verified", bool a.verified)
    ∷ ("receipt_kinds", arr (text_items a.receipt_kinds))
    ∷ ("authority_class", str a.authority_class)
    ∷ ("review_status", str a.review_status)
    ∷ ("raw_text", str a.raw_text)
    ∷ ("normalized_text", str a.normalized_text)
    ∷ ("value", obj a.value)
    ∷ ("entity_keys", arr a.entity_keys)
    ∷ ("section_path", a.section_path)
    ∷ ("source_artifact_id", str a.source_artifact_id)
    ∷ ("source_filename", str a.source_filename)
    ∷ ("extraction_method", str a.extraction_method)
    ∷ ("locator", obj a.locator)
    ∷ ("parser_version", str a.parser_version)
    ∷ [])

abbrev row_items : List UiAtom → Items
row_items [] = nil
row_items (a ∷ rest) = cons (obj (ui_fields a)) (row_items rest)

stage_row : Fields → Fields
unfolding get find or_json
stage_row e = fields (
    ("stage", get "stage" e)
    ∷ ("duration_ms", get "duration_ms" e)
    ∷ ("counts", or_json (get "counts" e) (obj end))
    ∷ ("warning_count", get_or (num (nat 0)) (find "warning_count" e))
    ∷ ("error_count", get_or (num (nat 0)) (find "error_count" e))
    ∷ [])

-- the loop over the events of the trace; what is no dict is passed over
stage_rows : Items → Items
unfolding stage_row
stage_rows nil = nil
stage_rows (cons (obj e) js) = cons (obj (stage_row e)) (stage_rows js)
stage_rows (cons j js) = stage_rows js

-- a list; what cannot be iterated, or holds no dict, gives no rows
items_of : Json → Items
items_of (arr js) = js
items_of j = nil

-- the stages of a trace
unfoldable pub stages_of : Json → Items
unfolding stage_rows items_of get or_json as_dict
stages_of trace =
    let d = dict_or_empty trace in
    stage_rows (items_of (or_json (get "stages" d) (or_json (get "events" d) (arr nil))))

-- [_serialize_atom_for_ui(a) for a in atoms_list]
unfoldable pub rows_of : (Json → String) → List Atom → List UiAtom
unfolding serialize_atom
rows_of repr atoms = map (serialize_atom repr) atoms

-- the payload, at a time and after so many seconds
unfoldable pub atoms_payload :
    (Json → String) → String → String → String → Json → CompileOutput → Fields
unfolding tally_all rows_of stages_of ui_fields
atoms_payload repr compile_id deal_id now seconds out =
    let rows = rows_of repr out.atoms in
    let found = tally_all rows no_tallies in
    fields (
      ("schema", str "parser_os.atoms.v1")
      ∷ ("compile_id", str compile_id)
      ∷ ("deal_id", str deal_id)
      ∷ ("generated_at_utc", str now)
      ∷ ("elapsed_sec", seconds)
      ∷ (
        "counts",
        obj (
            fields (
              ("atoms", num (nat (length rows)))
              ∷ ("entities", num (nat out.entities))
              ∷ ("edges", num (nat out.edges))
              ∷ ("packets", num (nat out.packets))
              ∷ ("by_atom_type", obj (counter_fields found.type_counter))
              ∷ [])),
      )
      ∷ ("by_artifact", obj (slot_fields found.by_artifact))
      ∷ ("stages", arr (stages_of out.trace))
      ∷ ("atoms", arr (row_items rows))
      ∷ [])
