-- ===== src/Atoms.antt =====
-- `_serialize_atom_for_ui`, and what `_upload_atoms` makes of the atoms of a compile: the rows of
-- atoms.json, their counts by type and by artifact, and the rows of the stages. The objects of
-- parser-os are records of the attributes that are read; the text of a float, a list or a dict is
-- the parameter `repr`.
pub mod Document
pub mod Speaker
pub mod Body
use Prim.Native.Char.{code}
use Prim.Native.String.{[] as nothing, ◌∷◌ as letter}
use parser_os_worker.Base.{
  Bool, List, Option, String, [], after_first, codes, cut, false, get_or, if◌then◌else◌, is_empty,
  is_some, lower, maybe, none, not, same_codes, size, some, starts_with, strip, true, ◌&&◌, ◌++◌,
  ◌+◌, ◌==◌, ◌||◌, ◌∷◌,
}
use parser_os_worker.Json.{
  Fields, Items, Json, dict_or_empty, end, get, or_json, put, str, text_of, truthy,
}

-- An attribute that holds an enum member or another value; a missing one is null.
pub data Attribute : Type 0 where
  member : String → Attribute
  given : Json → Attribute

pub record Receipt : Type 0 where
  pub status : Attribute
  pub kind : Attribute

-- One of an atom's `source_refs`.
pub record SourceRef : Type 0 where
  pub locator : Json
  pub filename : Option String
  pub extraction_method : Option String
  pub artifact_id : Option String

-- An `EvidenceAtom` of parser-os.
pub record Atom : Type 0 where
  pub id : Json
  pub atom_type : Attribute
  pub confidence : Json
  pub calibrated_confidence : Json
  pub artifact_id : Option String
  pub source_refs : List SourceRef
  pub receipts : List Receipt
  pub authority_class : Attribute
  pub review_status : Attribute
  pub value : Json
  pub raw_text : Option String
  pub normalized_text : Option String
  pub entity_keys : Items
  pub parser_version : Option String

-- The dict that the UI reads.
pub record UiAtom : Type 0 where
  pub id : Json
  pub atom_type : String
  pub confidence : Json
  pub calibrated_confidence : Json
  pub verified : Bool
  pub receipt_kinds : List String
  pub authority_class : String
  pub review_status : String
  pub raw_text : String
  pub normalized_text : String
  pub value : Fields
  pub entity_keys : Items
  pub section_path : Json
  pub source_artifact_id : String
  pub source_filename : String
  pub extraction_method : String
  pub locator : Fields
  pub parser_version : String

-- s or d
abbrev pub text_or : String → String → String
text_or s d = if is_empty s then d else s

-- if j and not d.get(k): d[k] = j
unfoldable pub fill : String → Json → Fields → Fields
unfolding truthy get put
fill k j d = if truthy j && not (truthy (get k d)) then put k j d else d

-- for k in ks: if v.get(k) and not d.get(k): d[k] = v.get(k)
unfoldable pub fill_from : Fields → List String → Fields → Fields
unfolding fill get
fill_from v [] d = d
fill_from v (k ∷ ks) d = fill_from v ks (fill k (get k v) d)

-- s.startswith(" — ")
starts_dash : String → Bool
starts_dash (letter a (letter b (letter c s))) = code a == 32 && code b == 8212 && code c == 32
starts_dash s = false

-- s.split(" — ", 1)[1], if there is one
unfoldable pub after_dash : String → Option String
unfolding starts_dash after_first
after_dash nothing = none
after_dash (letter c s) =
    let rest = after_dash s in
    if starts_dash (letter c s) then some (after_first 3 (letter c s)) else rest

-- the body without the prefix `label — `
unfoldable pub unprefixed : String → String → String
unfolding after_dash cut strip
unprefixed label body =
    if not (is_empty label)
      && starts_with body label
      && is_some (after_dash (cut (size label + 4) body))
    then text_or (strip (get_or body (after_dash body))) body
    else body

unfoldable pub is_verified_status : String → Bool
unfolding lower
is_verified_status s =
    same_codes (lower s) (codes "verified")
    || same_codes (lower s) (codes "ok")
    || same_codes (lower s) (codes "supported")

-- the locator under a label
unfoldable pub labelled : String → String → Fields → Fields → Fields
unfolding put fill fill_from get
labelled label speaker value locator =
    fill_from value ("affiliation" ∷ "party" ∷ "voice" ∷ "org_role" ∷ []) (
      fill "speaker_role" (get "speaker_role" value)
        (fill "speaker" (str speaker) (put "section_path" (str label) locator)))

-- the three writes into `value`
unfoldable pub voiced : String → String → String → Fields → Fields
unfolding put fill
voiced body speaker said_by value =
    fill "said_by" (str said_by)
      (fill "speaker" (str speaker) (if is_empty body then value else put "text" (str body) value))

-- the locator and the value of an atom, as dicts
abbrev pub primary : List SourceRef → Option SourceRef
primary [] = none
primary (s ∷ ss) = some s

unfoldable pub locator_of : Atom → Fields
locator_of a = maybe (primary a.source_refs) end λ s. dict_or_empty s.locator

unfoldable pub value_of : Atom → Fields
value_of a = dict_or_empty a.value

module _ (repr : Json → String) where
  -- x.value if hasattr(x, "value") else str(x or d)
  unfoldable pub attribute_text : String → Attribute → String
  unfolding text_of or_json
  attribute_text d (member s) = s
  attribute_text d (given j) = text_of repr (or_json j (str d))

  -- str(d.get(k) or "").strip()
  unfoldable pub text_at : String → Fields → String
  unfolding text_of or_json get strip
  text_at k d = strip (text_of repr (or_json (get k d) (str "")))

  -- the loop over the receipts: `verified` and `receipt_kinds`
  unfoldable pub read_receipts : List Receipt → Bool × List String → Bool × List String
  unfolding attribute_text is_verified_status
  read_receipts [] found = found
  read_receipts (r ∷ rs) (verified, kinds) =
      let kind = attribute_text "" r.kind in
      read_receipts rs (
        (if is_verified_status (attribute_text "" r.status) then true else verified),
        if is_empty kind then kinds else kinds ++ kind ∷ [],
      )

  unfoldable pub speaker_of : Fields → Fields → String
  unfolding text_at
  speaker_of value locator = text_or (text_at "speaker" value) (text_at "speaker" locator)

  unfoldable pub label_of : Fields → Fields → String
  unfolding text_at speaker_of
  label_of value locator = text_or (text_at "said_by" value) (speaker_of value locator)

  -- the body, before a prefix is taken off
  unfoldable pub spoken : Fields → Option String → String
  unfolding text_at
  spoken value raw = text_or (text_at "text" value) (get_or "" raw)

  unfoldable pub atom_label : Atom → String
  unfolding label_of locator_of value_of
  atom_label a = label_of (value_of a) (locator_of a)

  -- _serialize_atom_for_ui
  unfoldable pub serialize_atom : Atom → UiAtom
  unfolding attribute_text text_at read_receipts speaker_of label_of labelled spoken voiced
      unprefixed locator_of value_of atom_label get
  serialize_atom a =
      let value = value_of a in
      let found = locator_of a in
      let speaker = speaker_of value found in
      let body = unprefixed (atom_label a) (spoken value a.raw_text) in
      let receipts = read_receipts a.receipts (false, []) in
      let artifact = get_or "" a.artifact_id in
      record {
        id = a.id;
        atom_type = attribute_text "unknown" a.atom_type;
        confidence = a.confidence;
        calibrated_confidence = a.calibrated_confidence;
        verified = receipts.0;
        receipt_kinds = receipts.1;
        authority_class = attribute_text "" a.authority_class;
        review_status = attribute_text "" a.review_status;
        raw_text = body;
        normalized_text = text_or body (get_or "" a.normalized_text);
        value = voiced body speaker (text_at "said_by" value) value;
        entity_keys = a.entity_keys;
        section_path =
            if is_empty (atom_label a) then get "section_path" found else str (atom_label a);
        source_artifact_id =
            maybe (primary a.source_refs) artifact λ s. text_or (get_or "" s.artifact_id) artifact;
        source_filename = maybe (primary a.source_refs) "" λ s. get_or "" s.filename;
        extraction_method = maybe (primary a.source_refs) "" λ s. get_or "" s.extraction_method;
        locator =
            if is_empty (atom_label a) then found else labelled (atom_label a) speaker value found;
        parser_version = get_or "" a.parser_version;
      }
