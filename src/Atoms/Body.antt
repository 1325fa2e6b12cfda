-- ===== src/Atoms/Body.antt =====
-- Taking off a display prefix that an earlier row wrote before the utterance.
use Prim.Native.Char.{Char}
use Prim.Native.Nat.add
use Prim.Native.String.{[] as nothing, ◌∷◌ as letter}
use text.Mathlib.TextLemmas.{cons-append, nil-append}
use text.Mathlib.TextPositions.{starts_with-append}
use parser_os_worker.Atoms.{
  Atom, after_dash, atom_label, serialize_atom, spoken, starts_dash, unprefixed, value_of,
}
use parser_os_worker.Atoms.Speaker.{voiced-text}
use parser_os_worker.Base.{
  Bool, Option, String, ap, cut, false, if◌then◌else◌, is_empty, is_some, none, refl, size, some,
  some-ne-none, strip, sym, true, ℕ, ◌+◌, ◌<>◌, ◌∙◌, ◌≡◌,
}
use parser_os_worker.Json.{Json, get, str}

-- s + t, letter by letter
abbrev lead : String → String → String
lead nothing t = t
lead (letter c s) t = letter c (lead s t)

lead-append : (s t : String) → s <> t ≡ lead s t
lead-append nothing t = nil-append t
lead-append (letter c s) t = cons-append c s t ∙ ap (letter c) (lead-append s t)

dash-lead :
    (c : Char) (name x : String)
    → starts_dash (letter c (lead name (lead " — " x))) ≡ starts_dash (letter c (lead name " —"))
unfolding starts_dash
dash-lead c nothing x = refl
dash-lead c (letter d nothing) x = refl
dash-lead c (letter d (letter e name)) x = refl

pick_none :
    (b : Bool) (v : String) (o : Option String)
    → (if b then some v else o) ≡ none
    → (b ≡ false) × (o ≡ none)
pick_none true v o h = absurd (some-ne-none _ h)
pick_none false v o h = (refl, h)

after_dash-lead :
    (name x : String)
    → after_dash (lead name " —") ≡ none
    → after_dash (lead name (lead " — " x)) ≡ some x
unfolding after_dash
after_dash-lead nothing x h = refl
after_dash-lead (letter c name) x h =
    let (e, rest) = pick_none (starts_dash (letter c (lead name " —"))) _ _ h in
    rw (dash-lead c name x ∙ e) (after_dash-lead name x rest)

cut-lead : (n : ℕ) (name y : String) → cut (size name + n) (lead name y) ≡ lead name (cut n y)
unfolding cut
cut-lead n nothing y = ap (λ k. cut k y) (add.zero n)
cut-lead n (letter c name) y =
    ap (λ k. cut k (letter c (lead name y))) (add.suc (size name) n)
    ∙ ap (letter c) (cut-lead n name y)

module _ (name words : String) (h : after_dash (name <> " —") ≡ none) where
  found_dash : (x : String) → after_dash (name <> " — " <> x) ≡ some x
  found_dash x =
      ap after_dash (ap (λ t. name <> t) (lead-append " — " x) ∙ lead-append name (lead " — " x))
      ∙ after_dash-lead name x (ap after_dash (sym (lead-append name " —")) ∙ h)

  found_early : is_some (after_dash (cut (size name + 4) (name <> " — " <> words))) ≡ true
  unfolding cut
  found_early =
      rw
        (
          lead-append " — " words,
          lead-append name (lead " — " words),
          cut-lead 4 name (lead " — " words),
          after_dash-lead name (cut 1 words) (ap after_dash (sym (lead-append name " —")) ∙ h),
        )
        refl

  -- The prefix `name — ` comes off.
  pub unprefixed_prefix :
      is_empty name ≡ false
      → is_empty words ≡ false
      → strip words ≡ words
      → unprefixed name (name <> " — " <> words) ≡ words
  unfolding unprefixed
  unprefixed_prefix n m s =
      rw (n, starts_with-append name (" — " <> words), found_early, found_dash words, s, m) refl

-- An utterance that an earlier row wrote behind `label — ` comes back clean, as the text of the row,
-- as its normalized text and in its value, if it is not empty and has no white space at its ends, and
-- the label is not empty and holds no dash between spaces, nor one that the prefix would complete.
pub serialize_atom-unprefixed :
    (repr : Json → String) (a : Atom) (words : String)
    → is_empty (atom_label repr a) ≡ false
    → is_empty words ≡ false
    → strip words ≡ words
    → after_dash (atom_label repr a <> " —") ≡ none
    → spoken repr (value_of a) a.raw_text ≡ atom_label repr a <> " — " <> words
    → ((serialize_atom repr a).raw_text ≡ words)
      × ((serialize_atom repr a).normalized_text ≡ words)
      × (get "text" (serialize_atom repr a).value ≡ str words)
unfolding serialize_atom
serialize_atom-unprefixed repr a words n m s h e =
    (body, rw (body, m) refl, voiced-text _ _ _ (value_of a) (ap is_empty body ∙ m) ∙ ap str body)
  where
    body : unprefixed (atom_label repr a) (spoken repr (value_of a) a.raw_text) ≡ words
    body =
        ap (unprefixed (atom_label repr a)) e ∙ unprefixed_prefix (atom_label repr a) words h n m s
