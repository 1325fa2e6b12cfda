-- ===== src/WriteBack/Laws.antt =====
-- What a blob container promises, and what write_back_ml.py is to leave in one.
use parser_os_worker.Base.{
  Bool, Bool-cases, List, Option, String, [], arith, eq_iff, false, get_or, if◌then◌else◌, inl, inr,
  is_some, length, maybe, none, none-ne-some, not, or_else, refl, some, some-injective, starts_with,
  str_eq, true, ℕ, ◌&&◌, ◌||◌, ◌∷◌, ◌≡◌, ◌≢◌, ◌⊎◌,
}
use parser_os_worker.Service.{Exc, answer, failure, replied}
use parser_os_worker.WriteBack.{
  Bucket, Folder, LocalFile, Sizes, files_of, find_file, find_folder, folders_of, has_file,
  is_registry, set_size, size_of, sizes_from, walk,
}

abbrev pub All {ℓ κ} : {A : Type ℓ} → (A → Type κ) → List A → Type κ
All P [] = Unit
All P (x ∷ xs) = P x × All P xs

-- What holds of every entry of a listing holds of every entry of the dict that is built from it.
module _ (P : String → ℕ → Type 0) where
  abbrev pub Entries : Sizes → Type 0
  Entries = All (λ (e : String × ℕ). P e.0 e.1)

  set_size-Entries : (n : String) (k : ℕ) (d : Sizes) → P n k → Entries d → Entries (set_size n k d)
  unfolding set_size
  set_size-Entries n k [] h a = (h, tt)
  set_size-Entries n k ((m, i) ∷ d) h (x, a) = elim (Bool-cases (str_eq m n)) [
    | inl e ↦ rw e (h, a)
    | inr e ↦ rw e (x, set_size-Entries n k d h a)
  ]

  pub sizes_from-Entries :
      (d : Sizes) (l : List (String × Option ℕ))
      → Entries d
      → All (λ (e : String × Option ℕ). P e.0 (get_or 0 e.1)) l
      → Entries (sizes_from d l)
  unfolding sizes_from
  sizes_from-Entries d [] a h = a
  sizes_from-Entries d ((n, k) ∷ l) a (x, h) =
      sizes_from-Entries (set_size n (get_or 0 k) d) l (set_size-Entries n (get_or 0 k) d x a) h

  -- the entry that is looked up
  pub size_of-Entries : (n : String) (d : Sizes) (k : ℕ) → Entries d → size_of n d ≡ some k → P n k
  size_of-Entries n [] k a e = absurd (none-ne-some k e)
  size_of-Entries n ((m, i) ∷ d) k (x, a) e = elim (Bool-cases (str_eq m n)) [
    | inl f ↦ rw (← (eq_iff m n).0 f, ← some-injective i k (rw f at e)) x
    | inr f ↦ size_of-Entries n d k a (rw f at e)
  ]

-- a name that is listed has an entry
module _ (j : String) where
  has_size-set_size :
      (n : String) (k : ℕ) (d : Sizes)
      → is_some (size_of j (set_size n k d)) ≡ (str_eq n j || is_some (size_of j d))
  unfolding set_size
  has_size-set_size n k [] = elim (Bool-cases (str_eq n j)) [
    | inl e ↦ rw e refl
    | inr e ↦ rw e refl
  ]
  has_size-set_size n k ((m, i) ∷ d) =
      ground (arith, eq_iff m n, eq_iff n j, eq_iff m j, has_size-set_size n k d)

  -- the listing has an entry of that name
  abbrev pub is_listed : List (String × Option ℕ) → Bool
  is_listed [] = false
  is_listed ((n, k) ∷ l) = str_eq n j || is_listed l

  pub has_size-sizes_from :
      (d : Sizes) (l : List (String × Option ℕ))
      → is_some (size_of j (sizes_from d l)) ≡ (is_some (size_of j d) || is_listed l)
  unfolding sizes_from
  has_size-sizes_from d [] = ground arith
  has_size-sizes_from d ((n, k) ∷ l) =
      ground (
        arith,
        has_size-sizes_from (set_size n (get_or 0 k) d) l,
        has_size-set_size n (get_or 0 k) d,
      )

pub All-map {ℓ κ μ} :
    {A : Type ℓ} (P : A → Type κ) (Q : A → Type μ) (l : List A)
    → ((a : A) → P a → Q a)
    → All P l
    → All Q l
All-map P Q [] f h = tt
All-map P Q (a ∷ l) f (x, h) = (f a x, All-map P Q l f h)

module _ (B : Bucket) where
  open B use {State, get, upload, delete}

  -- An entry of a listing is a blob whose name has the prefix, with the blob's size.
  abbrev pub Listed : String → State → String × Option ℕ → Type 0
  Listed prefix s (n, k) =
      (starts_with n prefix ≡ true)
      × ((body : List ℕ) × (get s n ≡ some body) × (k ≡ some (length body)))

  pub other_dir :
      (d : String) (files : List LocalFile)
      → str_eq d "_head_registry" ≡ false
      → is_registry B d files ≡ false
  other_dir d [] e = refl
  other_dir d (f ∷ fs) e = e

  -- A call that came back has done what it says; one that raised has done it, or nothing. No other
  -- blob changes.
  pub record IsLawful : Type 0 where
    pub get-upload :
        (n j : String) (body : List ℕ) (s : State)
        → (upload n body s).0 ≡ answer tt
        → get (upload n body s).1 j ≡ (if str_eq n j then some body else get s j)
    pub get-upload_failed :
        (n j : String) (body : List ℕ) (s : State) (e : Exc)
        → (upload n body s).0 ≡ failure e
        → (get (upload n body s).1 j ≡ get s j)
          ⊎ ((str_eq n j ≡ true) × (get (upload n body s).1 j ≡ some body))
    pub get-delete :
        (n j : String) (s : State)
        → (delete n s).0 ≡ answer tt
        → get (delete n s).1 j ≡ (if str_eq n j then none else get s j)
    pub get-delete_failed :
        (n j : String) (s : State) (e : Exc)
        → (delete n s).0 ≡ failure e
        → (get (delete n s).1 j ≡ get s j) ⊎ (str_eq n j ≡ true)
    pub list-Listed :
        (p : String) (s : State) (l : List (String × Option ℕ))
        → B.list p s ≡ answer l
        → All (Listed p s) l
    pub list_all :
        (p j : String) (s : State) (l : List (String × Option ℕ))
        → B.list p s ≡ answer l
        → starts_with j p ≡ true
        → get s j ≢ none
        → is_listed j l ≡ true

  -- nothing fails
  pub record IsReliable : Type 0 where
    pub connected : B.connect ≡ answer tt
    pub uploads : (n : String) (body : List ℕ) (s : State) → (upload n body s).0 ≡ answer tt
    pub deletes : (n : String) (s : State) → (delete n s).0 ≡ answer tt
    pub lists : (p : String) (s : State) → (l : List (String × Option ℕ)) × (B.list p s ≡ answer l)

-- the files of a directory that DIRS names, or none
abbrev pub files_under : Folder → String → List LocalFile
files_under top d = maybe (find_folder d (folders_of top)) [] (walk d)

-- A blob that the mirroring of deletions may delete: one of the registry that is not on the disk, where
-- the disk has some file of the registry.
abbrev pub has_some : List LocalFile → Bool
has_some [] = false
has_some (f ∷ fs) = true

unfoldable pub prunable : Folder → String → Bool
prunable top j =
    starts_with j "_head_registry/"
    && not (has_file j (files_under top "_head_registry"))
    && has_some (files_under top "_head_registry")

-- what reading a file gives
abbrev pub held_in : LocalFile → Option (List ℕ)
held_in f = replied f.content (λ e. none) some

-- the file of that name
abbrev pub content_of : String → List LocalFile → Option (List ℕ)
content_of j [] = none
content_of j (f ∷ fs) = if str_eq f.name j then held_in f else content_of j fs

abbrev pub named_file : String → String → Option LocalFile → Option (List ℕ)
named_file n j none = none
named_file n j (some f) = if str_eq n j then held_in f else none

-- What a write-back is to make of the blob `j`, from what it held_in: a file on the disk replaces it, one
-- that the disk has no more of the registry is gone, and any other stays.
unfoldable pub mirror : Folder → String → Option (List ℕ) → Option (List ℕ)
unfolding prunable
mirror top j old =
    or_else (named_file "_embed_cache.db" j (find_file "_embed_cache.db" (files_of top))) (
      or_else
        (named_file "_training_deepseek.db" j (find_file "_training_deepseek.db" (files_of top)))
        (or_else (content_of j (files_under top "_span_heads")) (
          or_else (content_of j (files_under top "_type_head")) (
            or_else (content_of j (files_under top "_calibrator")) (
              if prunable top j
              then none
              else or_else (content_of j (files_under top "_head_registry")) old)))))

abbrev pub Distinct : List LocalFile → Type 0
Distinct [] = Unit
Distinct (f ∷ fs) = (has_file f.name fs ≡ false) × Distinct fs

-- a file that can be read, with its size
abbrev pub Readable : LocalFile → Type 0
Readable f = (body : List ℕ) × (f.size ≡ answer (length body)) × (f.content ≡ answer body)

abbrev pub Readable? : Option LocalFile → Type 0
Readable? none = Unit
Readable? (some f) = Readable f

-- Names are content-addressed: what `May` says that a name holds is determined by its length. The files
-- of DIRS can be read, hold what their names may, and have distinct names.
abbrev pub IsArtifact : (String → List ℕ → Type 0) → LocalFile → Type 0
IsArtifact May f =
    (body : List ℕ) × (f.size ≡ answer (length body)) × (f.content ≡ answer body) × May f.name body

abbrev pub AreArtifacts : (String → List ℕ → Type 0) → List LocalFile → Type 0
AreArtifacts May fs = All (IsArtifact May) fs × Distinct fs
