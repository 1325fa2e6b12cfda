-- ===== src/Tests/Rows.antt =====
-- Rows of atoms.json: an utterance with a display prefix, and one whose first word begins like the
-- speaker's name.
use parser_os_worker.Atoms.{
  Atom, UiAtom, after_dash, atom_label, given, member, serialize_atom, spoken, value_of,
}
use parser_os_worker.Atoms.Body.{serialize_atom-unprefixed}
use parser_os_worker.Atoms.Document.{no_tallies, rows_of, tally_all}
use parser_os_worker.Atoms.Document.Counts.{IsCensus, tally_all-IsCensus}
use parser_os_worker.Base.{List, String, [], none, refl, some, strip, ◌∷◌, ◌≡◌}
use parser_os_worker.Json.{Json, as_dict, fields, get, nat, nil, null, num, obj, str}

abbrev ann : String → Atom
ann said = record {
  id = str "a1";
  atom_type = member "decision";
  confidence = null;
  calibrated_confidence = null;
  artifact_id = some "art_1";
  source_refs =
      record {
        locator = obj (fields (("page", num (nat 3)) ∷ []));
        filename = some "kickoff.pdf";
        extraction_method = none;
        artifact_id = none;
      }
      ∷ [];
  receipts = record { status = given (str "Supported"); kind = member "quote" } ∷ [];
  authority_class = given null;
  review_status = member "pending";
  value =
      obj (fields (("speaker", str "Ann") ∷ ("party", str "Purtera") ∷ ("text", str said) ∷ []));
  raw_text = none;
  normalized_text = none;
  entity_keys = nil;
  parser_version = none;
}

abbrev no_repr : Json → String
no_repr j = ""

abbrev two_rows : List UiAtom
two_rows = rows_of no_repr (ann "Ship it" ∷ ann "Hold" ∷ [])

tally_all-IsCensus_example : IsCensus two_rows (tally_all two_rows no_tallies)
tally_all-IsCensus_example = tally_all-IsCensus two_rows

serialize_atom-unprefixed_example :
    ((serialize_atom no_repr (ann "Ann — Ship it")).raw_text ≡ "Ship it")
    × ((serialize_atom no_repr (ann "Ann — Ship it")).normalized_text ≡ "Ship it")
    × (get "text" (serialize_atom no_repr (ann "Ann — Ship it")).value ≡ str "Ship it")
unfolding atom_label strip after_dash spoken value_of as_dict
serialize_atom-unprefixed_example =
    serialize_atom-unprefixed no_repr (ann "Ann — Ship it") "Ship it" refl refl refl refl refl

-- "Anna" begins like the atom_label, so the word is taken for a prefix
mistaken_prefix : (serialize_atom no_repr (ann "Anna — call her")).raw_text ≡ "call her"
unfolding serialize_atom as_dict
mistaken_prefix = refl
