-- ===== src/WriteBack/Mirror.antt =====
-- What write_back_ml.py makes of a container where nothing fails.
pub mod Whole
use parser_os_worker.Base.{
  Bool, Bool-cases, List, Option, String, [], ap, arith, eq_iff, false, false≢true, get_or,
  if◌then◌else◌, inl, inr, is_some, length, neither, none, not, or_else, refl, some, some-ne-none,
  starts_with, str_eq, sym, true, ℕ, ◌&&◌, ◌==◌, ◌∙◌, ◌∷◌, ◌≡◌,
}
use parser_os_worker.Json.{get}
use parser_os_worker.Service.Action.{Option-cases}
use parser_os_worker.WriteBack.{
  Bucket, Counts, LocalFile, Run, Sizes, delete_name, has_file, is_current, prune, remote_sizes,
  send_blob, send_file, send_files, size_of,
}
use parser_os_worker.WriteBack.Laws.{
  All, All-map, AreArtifacts, Entries, IsArtifact, IsLawful, IsReliable, Listed, content_of,
  has_size-sizes_from, held_in, size_of-Entries, sizes_from-Entries,
}

==-eq : (a b : ℕ) → (a == b) ≡ true → a ≡ b
==-eq a b h = ground arith

-- one name of the registry, that is on the disk or not
pruned_kept :
    (same : Bool) (o : Option ℕ) (k : ℕ) (kept : Bool) (old : Option (List ℕ))
    → (same ≡ true → kept ≡ true)
    → (if is_some o && not kept then none else old)
      ≡ (if is_some (if same then some k else o) && not kept then none else old)
pruned_kept false o k kept old h = refl
pruned_kept true o k true old h = ground arith
pruned_kept true o k false old h = absurd (false≢true (h refl))

pruned_gone :
    (same : Bool) (o : Option ℕ) (k : ℕ) (kept : Bool) (old : Option (List ℕ))
    → (same ≡ true → kept ≡ false)
    → (if is_some o && not kept then none else (if same then none else old))
      ≡ (if is_some (if same then some k else o) && not kept then none else old)
pruned_gone false o k kept old h = refl
pruned_gone true o k false old h = ground arith
pruned_gone true o k true old h = absurd (false≢true (sym (h refl)))

registry_effect :
    (a kept listed : Bool) (c old : Option (List ℕ))
    → (kept ≡ false → c ≡ none)
    → (a ≡ false → listed ≡ false)
    → (a ≡ true → listed ≡ false → old ≡ none)
    → (if listed && not kept then none else or_else c old)
      ≡ (if a && not kept && true then none else or_else c old)
registry_effect a true listed c old f g h = ground arith
registry_effect true false true c old f g h = refl
registry_effect true false false c old f g h = rw (f refl, h refl refl) refl
registry_effect false false true c old f g h = absurd (false≢true (sym (g refl)))
registry_effect false false false c old f g h = refl

module _ (B : Bucket) (L : IsLawful B) (R : IsReliable B) (j : String) where
  open B use {State}

  get-send_blob :
      (n : String) (body : List ℕ) (t : Counts) (s : State)
      → B.get (send_blob B n body (t, s)).1 j ≡ (if str_eq n j then some body else B.get s j)
  unfolding send_blob
  get-send_blob n body t s = L.get-upload n j body s (R.uploads n body s)

  -- the size that was listed is that of the blob
  abbrev Sized : State → String → ℕ → Type 0
  Sized s n k = (body : List ℕ) × (B.get s n ≡ some body) × (length body ≡ k)

  module _ (May : String → List ℕ → Type 0)
      (sized : (n : String) (a b : List ℕ) → May n a → May n b → length a ≡ length b → a ≡ b) where
    -- a blob's content, or none, that its name may have
    abbrev pub Fits : Option (List ℕ) → Type 0
    Fits none = Unit
    Fits (some body) = May j body

    -- a file that is skipped is there already
    current :
        (f : LocalFile) (body : List ℕ) (remote : Sizes) (s : State)
        → str_eq f.name j ≡ true
        → May f.name body
        → Fits (B.get s j)
        → ((k : ℕ) → size_of j remote ≡ some k → Sized s j k)
        → is_current B (size_of f.name remote) (length body) ≡ true
        → B.get s j ≡ some body
    unfolding is_current
    current f body remote s e m fits fresh c =
        let same = (eq_iff f.name j).0 e in
        elim (Option-cases (size_of f.name remote)) [
          | inl none_there ↦ absurd (false≢true (rw none_there at c))
          | inr (k, there) ↦
              let (old, held_there, long) = fresh k (rw (← same) there) in
              let m' : May j body = rw (← same) m in
              let fits' : May j old = rw held_there at fits in
              held_there
              ∙ ap some (sized j old body fits' m' (long ∙ ==-eq k (length body) (rw there at c)))
        ]

    get-send_file :
        (remote : Sizes) (f : LocalFile) (r : Run B)
        → IsArtifact May f
        → Fits (B.get r.1 j)
        → ((k : ℕ) → size_of j remote ≡ some k → Sized r.1 j k)
        → B.get (send_file B remote f r).1 j ≡ (if str_eq f.name j then held_in f else B.get r.1 j)
    unfolding send_file
    get-send_file remote f (t, s) (body, long, content, m) fits fresh =
        elim (Bool-cases (is_current B (size_of f.name remote) (length body))) [
          | inr c ↦ rw (long, c, content, send_file) (get-send_blob f.name body t s)
          | inl c ↦ elim (Bool-cases (str_eq f.name j)) [
            | inr e ↦ rw (long, c, e, send_file) refl
            | inl e ↦ rw (long, c, e, content, send_file) (current f body remote s e m fits fresh c)
          ]
        ]

    pub if_Fits : (b : Bool) (o p : Option (List ℕ)) → Fits o → Fits p → Fits (if b then o else p)
    if_Fits true o p h g = h
    if_Fits false o p h g = g

    held_in-Fits : (f : LocalFile) → str_eq f.name j ≡ true → IsArtifact May f → Fits (held_in f)
    held_in-Fits f e (body, long, content, m) = rw content (rw (← (eq_iff f.name j).0 e) m)

    pub content-Fits :
        (files : List LocalFile) → All (IsArtifact May) files → Fits (content_of j files)
    content-Fits [] a = tt
    content-Fits (f ∷ fs) (x, a) = elim (Bool-cases (str_eq f.name j)) [
      | inl e ↦ rw e (held_in-Fits f e x)
      | inr e ↦ rw e (content-Fits fs a)
    ]

    pub or_else-Fits : (o p : Option (List ℕ)) → Fits o → Fits p → Fits (or_else o p)
    or_else-Fits none p h g = g
    or_else-Fits (some a) p h g = h

    get-send_file_other :
        (remote : Sizes) (f : LocalFile) (r : Run B)
        → IsArtifact May f
        → str_eq f.name j ≡ false
        → B.get (send_file B remote f r).1 j ≡ B.get r.1 j
    unfolding send_file
    get-send_file_other remote f (t, s) (body, long, content, m) e =
        elim (Bool-cases (is_current B (size_of f.name remote) (length body))) [
          | inl c ↦ rw (long, c, send_file) refl
          | inr c ↦
              rw (long, c, content, send_file)
                (get-send_blob f.name body t s ∙ ap (λ b. if b then some body else B.get s j) e)
        ]

    held_or :
        (f : LocalFile) (o : Option (List ℕ)) → IsArtifact May f → or_else (held_in f) o ≡ held_in f
    held_or f o (body, long, content, m) =
        let e : held_in f ≡ some body = rw content refl in ap (λ h. or_else h o) e ∙ sym e

    -- no file of that name
    get-send_files_other :
        (remote : Sizes) (files : List LocalFile) (r : Run B)
        → All (IsArtifact May) files
        → has_file j files ≡ false
        → B.get (send_files B remote files r).1 j ≡ B.get r.1 j
    unfolding send_files
    get-send_files_other remote [] r a n = refl
    get-send_files_other remote (f ∷ fs) r (x, a) n =
        let (other, rest) = neither (str_eq f.name j) (has_file j fs) n in
        get-send_files_other remote fs (send_file B remote f r) a rest
        ∙ get-send_file_other remote f r x other

    pub get-send_files :
        (remote : Sizes) (files : List LocalFile) (r : Run B)
        → AreArtifacts May files
        → Fits (B.get r.1 j)
        → ((k : ℕ) → size_of j remote ≡ some k → Sized r.1 j k)
        → B.get (send_files B remote files r).1 j ≡ or_else (content_of j files) (B.get r.1 j)
    unfolding send_files
    get-send_files remote [] r a fits fresh = refl
    get-send_files remote (f ∷ fs) r ((x, a), (d, ds)) fits fresh =
        let step = get-send_file remote f r x fits fresh in
        elim (Bool-cases (str_eq f.name j)) [
          | inr e ↦
              let kept = get-send_file_other remote f r x e in
              rw (e, ← kept)
                (get-send_files remote fs (send_file B remote f r) (a, ds) (rw kept fits)
                  (λ k g. rw kept (fresh k g)))
          | inl e ↦
              let now = step ∙ ap (λ b. if b then held_in f else B.get r.1 j) e in
              rw e (
                get-send_files_other remote fs (send_file B remote f r) a
                  (rw (← (eq_iff f.name j).0 e) d)
                ∙ now
                ∙ sym (held_or f (B.get r.1 j) x))
        ]

  -- the registry's names that are not on the disk
  get-prune :
      (files : List LocalFile) (remote : Sizes) (r : Run B)
      → B.get (prune B files remote r).1 j
        ≡ (if is_some (size_of j remote) && not (has_file j files) then none else B.get r.1 j)
  unfolding prune delete_name
  get-prune files [] r = refl
  get-prune files ((n, k) ∷ remote) r = elim (Bool-cases (has_file n files)) [
    | inl kept ↦
        rw (kept, prune)
          (get-prune files remote r
            ∙ pruned_kept (str_eq n j) (size_of j remote) k (has_file j files) (B.get r.1 j)
                (λ e. rw (← (eq_iff n j).0 e) kept))
    | inr gone ↦
        rw (gone, prune)
          (get-prune files remote (delete_name B n r)
            ∙ ap (λ o. if is_some (size_of j remote) && not (has_file j files) then none else o)
                (L.get-delete n j r.1 (R.deletes n r.1))
            ∙ pruned_gone (str_eq n j) (size_of j remote) k (has_file j files) (B.get r.1 j)
                (λ e. rw (← (eq_iff n j).0 e) gone))
  ]

  Sized-listed : (p : String) (s : State) → Entries (Sized s) (remote_sizes B p s)
  unfolding remote_sizes
  Sized-listed p s =
      let (l, e) = R.lists p s in
      rw (e, remote_sizes)
        (sizes_from-Entries (Sized s) [] l tt (
          All-map (Listed B p s) (λ (n, k). Sized s n (get_or 0 k)) l
            (λ (n, k) (x, (body, g, f)). (body, g, rw f refl)) (L.list-Listed p s l e)))

  starts-listed :
      (p : String) (s : State) → Entries (λ n _. starts_with n p ≡ true) (remote_sizes B p s)
  unfolding remote_sizes
  starts-listed p s =
      let (l, e) = R.lists p s in
      rw (e, remote_sizes)
        (sizes_from-Entries (λ n _. starts_with n p ≡ true) [] l tt
          (All-map (Listed B p s) (λ (n, k). starts_with n p ≡ true) l (λ (n, k) x. x.0)
            (L.list-Listed p s l e)))

  -- a blob with another prefix is not listed, and one with the prefix is
  unlisted :
      (p : String) (s : State)
      → starts_with j p ≡ false
      → is_some (size_of j (remote_sizes B p s)) ≡ false
  unlisted p s a = elim (Option-cases (size_of j (remote_sizes B p s))) [
    | inl e ↦ rw e refl
    | inr (k, e) ↦
        absurd
          (false≢true (sym a ∙ size_of-Entries _ j (remote_sizes B p s) k (starts-listed p s) e))
  ]

  listed_all :
      (p : String) (s : State)
      → starts_with j p ≡ true
      → is_some (size_of j (remote_sizes B p s)) ≡ false
      → B.get s j ≡ none
  unfolding remote_sizes
  listed_all p s a h = elim (Option-cases (B.get s j)) [
    | inl e ↦ e
    | inr (body, e) ↦
        let (l, f) = R.lists p s in
        let g = L.list_all p j s l f a (rw e (some-ne-none body)) in
        absurd (false≢true (sym (rw (f, remote_sizes) at h) ∙ has_size-sizes_from j [] l ∙ g))
  ]

  no_content : (files : List LocalFile) → has_file j files ≡ false → content_of j files ≡ none
  no_content [] h = refl
  no_content (f ∷ fs) h =
      let (other, rest) = neither (str_eq f.name j) (has_file j fs) h in
      rw other (no_content fs rest)
