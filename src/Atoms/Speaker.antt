-- ===== src/Atoms/Speaker.antt =====
-- What a row says of the speaker, and what its dicts keep of the atom's.
use parser_os_worker.Atoms.{
  Atom, UiAtom, atom_label, attribute_text, fill, is_verified_status, locator_of, speaker_of,
  value_of, voiced,
}
use parser_os_worker.Base.{
  Bool, Bool-cases, String, and_false, any, eq_iff, false, false≢true, if◌then◌else◌, inl, inr,
  is_empty, not, refl, str_eq, sym, true, ◌&&◌, ◌||◌, ◌∙◌, ◌≡◌,
}
use parser_os_worker.Json.{Fields, Json, get, or_json, put, str, truthy}
use parser_os_worker.Json.Lookup.{get-put, get-put_other}

clash : (b c : Bool) → c ≡ true → (b && not c) ≡ true → ⊥
clash b true h e = false≢true (sym (and_false b) ∙ e)
clash b false h e = false≢true h

-- A true entry stays when others are filled in.
fill-held :
    (q k : String) (x j : Json) (d : Fields)
    → truthy j ≡ true
    → get q d ≡ j
    → get q (fill k x d) ≡ j
unfolding fill
fill-held q k x j d t h = elim (Bool-cases (truthy x && not (truthy (get k d)))) [
  | inl e ↦ rw e (elim (Bool-cases (str_eq k q)) [
    | inl same ↦ absurd (clash (truthy x) (truthy (get k d)) (rw ((eq_iff k q).0 same, h) t) e)
    | inr other ↦ get-put_other q k x d other ∙ h
  ])
  | inr e ↦ rw e h
]

voiced-held :
    (q : String) (j : Json) (body speaker said_by : String) (v : Fields)
    → truthy j ≡ true
    → get q (if is_empty body then v else put "text" (str body) v) ≡ j
    → get q (voiced body speaker said_by v) ≡ j
unfolding voiced
voiced-held q j body speaker said_by v t h = search fill-held

text-truthy : (s : String) → is_empty s ≡ false → truthy (str s) ≡ true
unfolding truthy
text-truthy s e = rw e refl

pub voiced-text :
    (body speaker said_by : String) (v : Fields)
    → is_empty body ≡ false
    → get "text" (voiced body speaker said_by v) ≡ str body
voiced-text body speaker said_by v e =
    voiced-held "text" (str body) body speaker said_by v (text-truthy body e)
      (rw e (get-put "text" (str body) v))

module _ (repr : Json → String) (a : Atom) where
  -- What a row says of its atom: the label is the section path, in the locator too, a speaker stands
  -- in the value, the true entries of the locator and of the value stay, but for the section path
  -- and the text, which are the row's, and the atom is verified where one of its receipts is.
  abbrev pub IsRow : UiAtom → Type 0
  IsRow u =
      (u.section_path ≡ or_json (str (atom_label repr a)) (get "section_path" (locator_of a)))
      × (get "section_path" u.locator ≡ u.section_path)
      × ((is_empty (speaker_of repr (value_of a) (locator_of a)) || truthy (get "speaker" u.value))
          ≡ true)
      × ((k : String)
          → or_json (get k (put "section_path" u.section_path (locator_of a))) (get k u.locator)
            ≡ get k u.locator)
      × ((k : String)
          → or_json (get k (put "text" (str u.raw_text) (value_of a))) (get k u.value)
            ≡ get k u.value)
      × (u.verified ≡ any (λ r. is_verified_status (attribute_text repr "" r.status)) a.receipts)
