-- ===== src/Atoms/Document/Counts.antt =====
-- The counts of atoms.json against the rows that they count.
use parser_os_worker.Atoms.{UiAtom}
use parser_os_worker.Atoms.Document.{
  Tallies, artifact_of, count_one, empty_slot, enter, no_tallies, revise, tally, tally_all,
}
use parser_os_worker.Base.{
  Bool, Bool-cases, List, String, [], ap, arith, eq_iff, eq_refl, false, if◌then◌else◌, inl, inr,
  length, refl, str_eq, suc, true, ℕ, ◌&&◌, ◌+◌, ◌∙◌, ◌∷◌, ◌≡◌,
}
use parser_os_worker.Service.Calls.{differ_lemma}

-- the entry of a key; a key that is missing reads as an empty one
unfoldable pub entry {ℓ} : {A : Type ℓ} → A → String → List (String × A) → A
entry empty k [] = empty
entry empty k ((i, a) ∷ l) = if str_eq i k then a else entry empty k l

module _ {ℓ} {A : Type ℓ} (empty : A) (f : A → A) where
  entry-revise_same :
      (k : String) (l : List (String × A))
      → entry empty k (revise empty f k l) ≡ f (entry empty k l)
  unfolding entry revise
  entry-revise_same k [] = rw (eq_refl k) refl
  entry-revise_same k ((i, a) ∷ l) = elim (Bool-cases (str_eq i k)) [
    | inl e ↦ rw (e, e) refl
    | inr e ↦ rw (e, e) (entry-revise_same k l)
  ]

  entry-revise_other :
      (t k : String) (l : List (String × A))
      → str_eq k t ≡ false
      → entry empty t (revise empty f k l) ≡ entry empty t l
  unfolding entry revise
  entry-revise_other t k [] h = rw h refl
  entry-revise_other t k ((i, a) ∷ l) h = elim (Bool-cases (str_eq i k)) [
    | inl e ↦ rw (e, differ_lemma i t k h e) refl
    | inr e ↦ rw e (elim (Bool-cases (str_eq i t)) [
      | inl g ↦ rw g refl
      | inr g ↦ rw g (entry-revise_other t k l h)
    ])
  ]

  pub entry-revise :
      (t k : String) (l : List (String × A))
      → entry empty t (revise empty f k l)
        ≡ (if str_eq k t then f (entry empty t l) else entry empty t l)
  entry-revise t k l = elim (Bool-cases (str_eq k t)) [
    | inl e ↦ rw (e, (eq_iff k t).0 e) (entry-revise_same t l)
    | inr e ↦ rw e (entry-revise_other t k l e)
  ]

-- the sum over the entries
abbrev pub sum_counts {ℓ} : {A : Type ℓ} → (A → ℕ) → List (String × A) → ℕ
sum_counts m [] = 0
sum_counts m ((i, a) ∷ l) = m a + sum_counts m l

pub sum_counts-revise {ℓ} :
    {A : Type ℓ} (empty : A) (f : A → A) (m : A → ℕ)
    → m empty ≡ 0
    → ((a : A) → m (f a) ≡ suc (m a))
    → (k : String) (l : List (String × A))
    → sum_counts m (revise empty f k l) ≡ suc (sum_counts m l)
unfolding revise
sum_counts-revise empty f m z h k [] = omega (arith, h empty, z)
sum_counts-revise empty f m z h k ((i, a) ∷ l) = elim (Bool-cases (str_eq i k)) [
  | inl e ↦ rw e (omega (arith, h a))
  | inr e ↦ rw e (omega (arith, sum_counts-revise empty f m z h k l))
]

-- how many rows satisfy a test
abbrev pub number : (UiAtom → Bool) → List UiAtom → ℕ
number p [] = 0
number p (a ∷ rest) = (if p a then 1 else 0) + number p rest

number-length : (rows : List UiAtom) → number (λ a. true) rows ≡ length rows
number-length [] = refl
number-length (a ∷ rest) = omega (arith, number-length rest)

-- A measure that a row raises by one where it passes a test is, in the end, the number of those.
tallied :
    (m : Tallies → ℕ) (p : UiAtom → Bool)
    → ((a : UiAtom) (s : Tallies) → m (tally a s) ≡ (if p a then 1 else 0) + m s)
    → (rows : List UiAtom) (s : Tallies) → m (tally_all rows s) ≡ number p rows + m s
unfolding tally_all
tallied m p h [] s = omega arith
tallied m p h (a ∷ rest) s = omega (arith, tallied m p h rest (tally a s), h a s)

-- A measure of an entry that a revision raises by `d`: the entry of `t` rises where `t` is revised.
entry_raised {ℓ} :
    {A : Type ℓ} (empty : A) (f : A → A) (m : A → ℕ) (d : ℕ)
    → ((a : A) → m (f a) ≡ d + m a)
    → (t k : String) (l : List (String × A))
    → m (entry empty t (revise empty f k l)) ≡ (if str_eq k t then d else 0) + m (entry empty t l)
entry_raised empty f m d h t k l = elim (Bool-cases (str_eq k t)) [
  | inl e ↦ rw (entry-revise empty f t k l, e) (h (entry empty t l))
  | inr e ↦ rw (entry-revise empty f t k l, e) (omega arith)
]

type_turn :
    (t : String) (a : UiAtom) (s : Tallies)
    → entry 0 t (tally a s).type_counter
      ≡ (if str_eq a.atom_type t then 1 else 0) + entry 0 t s.type_counter
unfolding tally count_one
type_turn t a s = entry_raised 0 suc (λ n. n) 1 (λ n. omega arith) t a.atom_type s.type_counter

artifact_turn :
    (f : String) (a : UiAtom) (s : Tallies)
    → (entry empty_slot f (tally a s).by_artifact).atom_count
      ≡ (if str_eq (artifact_of a) f then 1 else 0) + (entry empty_slot f s.by_artifact).atom_count
unfolding tally enter
artifact_turn f a s =
    entry_raised empty_slot (enter a.atom_type) (λ e. e.atom_count) 1 (λ e. omega arith) f
      (artifact_of a) s.by_artifact

both_turn :
    (n : ℕ) (b c : Bool) → (if b then (if c then n else 0) else 0) ≡ (if b && c then n else 0)
both_turn n true c = refl
both_turn n false c = refl

within_turn :
    (f t : String) (a : UiAtom) (s : Tallies)
    → entry 0 t (entry empty_slot f (tally a s).by_artifact).by_type
      ≡ (if str_eq (artifact_of a) f && str_eq a.atom_type t then 1 else 0)
        + entry 0 t (entry empty_slot f s.by_artifact).by_type
unfolding tally enter count_one
within_turn f t a s =
    entry_raised empty_slot (enter a.atom_type) (λ e. entry 0 t e.by_type)
      (if str_eq a.atom_type t then 1 else 0)
      (λ e. entry_raised 0 suc (λ n. n) 1 (λ n. omega arith) t a.atom_type e.by_type) f
      (artifact_of a) s.by_artifact
    ∙ ap (λ n. n + entry 0 t (entry empty_slot f s.by_artifact).by_type)
        (both_turn 1 (str_eq (artifact_of a) f) (str_eq a.atom_type t))

sum_turn :
    (f : String) (a : UiAtom) (s : Tallies)
    → sum_counts (λ n. n) (entry empty_slot f (tally a s).by_artifact).by_type
      ≡ (if str_eq (artifact_of a) f then 1 else 0)
        + sum_counts (λ n. n) (entry empty_slot f s.by_artifact).by_type
unfolding tally enter count_one
sum_turn f a s =
    entry_raised empty_slot (enter a.atom_type) (λ e. sum_counts (λ n. n) e.by_type) 1
      (λ e. omega (arith, sum_counts-revise 0 suc (λ n. n) refl (λ n. refl) a.atom_type e.by_type))
      f (artifact_of a) s.by_artifact

types_turn :
    (a : UiAtom) (s : Tallies)
    → sum_counts (λ n. n) (tally a s).type_counter ≡ 1 + sum_counts (λ n. n) s.type_counter
unfolding tally count_one
types_turn a s =
    omega (arith, sum_counts-revise 0 suc (λ n. n) refl (λ n. refl) a.atom_type s.type_counter)

artifacts_turn :
    (a : UiAtom) (s : Tallies)
    → sum_counts (λ e. e.atom_count) (tally a s).by_artifact
      ≡ 1 + sum_counts (λ e. e.atom_count) s.by_artifact
unfolding tally enter
artifacts_turn a s = omega (
  arith,
  sum_counts-revise empty_slot (enter a.atom_type) (λ e. e.atom_count) refl (λ e. refl)
      (artifact_of a) s.by_artifact,
)

per_artifact :
    (f : String) (rows : List UiAtom)
    → (entry empty_slot f (tally_all rows no_tallies).by_artifact).atom_count
      ≡ number (λ a. str_eq (artifact_of a) f) rows
unfolding entry
per_artifact f rows = omega (
  arith,
  tallied (λ s. (entry empty_slot f s.by_artifact).atom_count) (λ a. str_eq (artifact_of a) f)
      (artifact_turn f) rows no_tallies,
)

-- What the counts of rows say: for every type how many rows have it, for every artifact how many
-- rows are of it, and how many of those have a type; and the counts add up.
abbrev pub IsCensus : List UiAtom → Tallies → Type 0
IsCensus rows s =
    ((t : String) → entry 0 t s.type_counter ≡ number (λ a. str_eq a.atom_type t) rows)
    × ((f : String)
        → (entry empty_slot f s.by_artifact).atom_count
          ≡ number (λ a. str_eq (artifact_of a) f) rows)
    × ((f t : String)
        → entry 0 t (entry empty_slot f s.by_artifact).by_type
          ≡ number (λ a. str_eq (artifact_of a) f && str_eq a.atom_type t) rows)
    × ((f : String)
        → sum_counts (λ n. n) (entry empty_slot f s.by_artifact).by_type
          ≡ (entry empty_slot f s.by_artifact).atom_count)
    × (sum_counts (λ n. n) s.type_counter ≡ length rows)
    × (sum_counts (λ e. e.atom_count) s.by_artifact ≡ length rows)

-- The counts that the loop of _upload_atoms makes of the rows of atoms.json are those of the rows:
-- for every type as many as have it, for every artifact as many as are of it, of each type too, and
-- the counts of an artifact's types, of all types and of all artifacts add up.
pub tally_all-IsCensus : (rows : List UiAtom) → IsCensus rows (tally_all rows no_tallies)
unfolding entry
tally_all-IsCensus rows = (
  λ t. omega (
    arith,
    tallied (λ s. entry 0 t s.type_counter) (λ a. str_eq a.atom_type t) (type_turn t) rows
        no_tallies,
  ),
  λ f. per_artifact f rows,
  λ f t. omega (
    arith,
    tallied (λ s. entry 0 t (entry empty_slot f s.by_artifact).by_type)
        (λ a. str_eq (artifact_of a) f && str_eq a.atom_type t) (within_turn f t) rows no_tallies,
  ),
  λ f. omega (
    arith,
    per_artifact f rows,
    tallied (λ s. sum_counts (λ n. n) (entry empty_slot f s.by_artifact).by_type)
        (λ a. str_eq (artifact_of a) f) (sum_turn f) rows no_tallies,
  ),
  omega (
    arith,
    number-length rows,
    tallied (λ s. sum_counts (λ n. n) s.type_counter) (λ a. true) types_turn rows no_tallies,
  ),
  omega (
    arith,
    number-length rows,
    tallied (λ s. sum_counts (λ e. e.atom_count) s.by_artifact) (λ a. true) artifacts_turn rows
        no_tallies,
  ),
)
