-- ===== src/Status/Bounds.antt =====
-- How long the texts of the run index are: the metadata travels as HTTP headers.
use Prim.Native.Char.{Char, code}
use text.Mathlib.TextLemmas.{cons-append, nil-append}
use parser_os_worker.Base.{
  Bool, Bool-cases, List, Option, String, [], arith, cut, false, false≢true, if◌then◌else◌, inl,
  inr, is_empty, keep, leb, neither, none, refl, size, some, str_eq, suc, true, zero, ℕ, ◌&&◌, ◌+◌,
  ◌-◌, ◌<>◌, ◌||◌, ◌∷◌, ◌≡◌, ◌≤◌, ◌⊎◌,
}
use parser_os_worker.FetchMl.{keys}
use parser_os_worker.Json.{Fields, Json, field, find, get, null, str, text_of, truthy}
use parser_os_worker.Json.Lookup.{get-put}
use parser_os_worker.Service.{Host}
use parser_os_worker.Status.{
  error_max, metadata_value, pick, printable, run_index_body, run_index_fields, run_index_metadata,
  shorten,
}

-- every code point of the text passes
abbrev pub all_codes : (ℕ → Bool) → String → Bool
all_codes p String.[] = true
all_codes p (String.◌∷◌ c s) = p (code c) && all_codes p s

-- a text that can travel as a header: printable ASCII, short, and not empty
abbrev pub IsHeader : String → Type 0
IsHeader v = (all_codes printable v ≡ true) × (size v ≤ 128) × (is_empty v ≡ false)

-- every value can
abbrev pub AreHeaders : List (String × String) → Type 0
AreHeaders [] = Unit
AreHeaders ((k, v) ∷ l) = IsHeader v × AreHeaders l

module _ (p : ℕ → Bool) where
  all_codes-keep_if :
      (b : Bool) (c : Char) (s : String)
      → p (code c) ≡ b
      → all_codes p s ≡ true
      → all_codes p (if b then String.◌∷◌ c s else s) ≡ true
  all_codes-keep_if true c s e h = rw (e, h) refl
  all_codes-keep_if false c s e h = h

  all_codes-keep : (s : String) → all_codes p (keep p s) ≡ true
  unfolding keep
  all_codes-keep String.[] = refl
  all_codes-keep (String.◌∷◌ c s) =
      all_codes-keep_if (p (code c)) c (keep p s) refl (all_codes-keep s)

  and_tail : (a b : Bool) → (a && b) ≡ true → (a ≡ true) × (b ≡ true)
  and_tail true b h = (refl, h)
  and_tail false b h = absurd (false≢true h)

  all_codes-cut : (n : ℕ) (s : String) → all_codes p s ≡ true → all_codes p (cut n s) ≡ true
  unfolding cut
  all_codes-cut zero s h = refl
  all_codes-cut (suc n) String.[] h = refl
  all_codes-cut (suc n) (String.◌∷◌ c s) h =
      let (a, b) = and_tail (p (code c)) (all_codes p s) h in rw (a, all_codes-cut n s b) refl

size-cut : (n : ℕ) (s : String) → size (cut n s) ≤ n
unfolding cut
size-cut zero s = omega arith
size-cut (suc n) String.[] = omega arith
size-cut (suc n) (String.◌∷◌ c s) = let h = size-cut n s in omega arith

size-append : (s t : String) → size (s <> t) ≡ size s + size t
size-append String.[] t = rw (nil-append t) (omega arith)
size-append (String.◌∷◌ c s) t = let h = size-append s t in rw (cons-append c s t) (omega arith)

shorten_if :
    (b : Bool) (s : String)
    → leb (size s) error_max ≡ b
    → size (if b then s else cut (error_max - 1) s <> "…") ≤ error_max
shorten_if true s e = ground arith
shorten_if false s e =
    let h = size-cut (error_max - 1) s in rw (size-append (cut (error_max - 1) s) "…") (omega arith)

-- the error of a run index entry is short
size-shorten : (s : String) → size (shorten s) ≤ error_max
unfolding shorten
size-shorten s = shorten_if _ s refl

-- the error of a run index entry: none, or a short text
abbrev ShortError : Json → Type 0
ShortError j = (j ≡ null) ⊎ ((s : String) × (j ≡ str s) × (size s ≤ error_max))

abbrev has : String → List String → Bool
has q [] = false
has q (k ∷ ks) = str_eq k q || has q ks

get-pick_if :
    (q k : String) (o : Option Json) (rest : Fields)
    → str_eq k q ≡ false
    → get q rest ≡ null
    → get q (elim o [ none ↦ rest | some j ↦ field k j rest ]) ≡ null
unfolding get find
get-pick_if q k none rest e h = h
get-pick_if q k (some j) rest e h = rw e h

-- what is not picked is not there
get-pick :
    (q : String) (ks : List String) (payload : Fields)
    → has q ks ≡ false
    → get q (pick ks payload) ≡ null
unfolding get find pick
get-pick q [] payload h = refl
get-pick q (k ∷ ks) payload h =
    let (a, b) = neither (str_eq k q) (has q ks) h in
    get-pick_if q k (find k payload) (pick ks payload) a (get-pick q ks payload b)

metadata_if :
    (b : Bool) (k v : String) (l : List (String × String))
    → is_empty v ≡ b
    → (all_codes printable v ≡ true) × (size v ≤ 128)
    → AreHeaders l
    → AreHeaders (if b then l else (k, v) ∷ l)
metadata_if true k v l e h g = g
metadata_if false k v l e (a, b) g = ((a, b, e), g)

metadata_value-short :
    (w : Host) (j : Json)
    → (all_codes printable (metadata_value w j) ≡ true) × (size (metadata_value w j) ≤ 128)
unfolding metadata_value
metadata_value-short w j =
    (all_codes-cut printable 128 _ (all_codes-keep printable _), size-cut 128 _)

-- Whatever the payload holds, the error of its run index entry reads as null, or is a text of at
-- most 500 characters.
pub run_index_body-ShortError :
    (w : Host) (payload : Fields) → ShortError (get "error" (run_index_body w payload))
unfolding run_index_body
run_index_body-ShortError w payload = elim (Bool-cases (truthy (get "error" payload))) [
  | inl e ↦ rw e (
      inr (
        shorten (text_of w.repr (get "error" payload)),
        get-put "error" _ _,
        size-shorten (text_of w.repr (get "error" payload)),
      ))
  | inr e ↦ rw e (inl (get-pick "error" run_index_fields payload refl))
]

-- Whatever the payload holds, every value of the metadata of its run index entry is printable ASCII,
-- has at most 128 characters, and is not empty.
pub run_index_metadata-AreHeaders :
    (w : Host) (keys : List String) (payload : Fields)
    → AreHeaders (run_index_metadata w keys payload)
unfolding run_index_metadata
run_index_metadata-AreHeaders w [] payload = tt
run_index_metadata-AreHeaders w (k ∷ keys) payload =
    metadata_if _ k (metadata_value w (get k payload)) (run_index_metadata w keys payload) refl
      (metadata_value-short w (get k payload)) (run_index_metadata-AreHeaders w keys payload)
