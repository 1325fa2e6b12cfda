-- ===== src/WriteBack/Safety.antt =====
-- What write_back_ml.py never deletes, whatever fails.
use parser_os_worker.Base.{
  Bool, Bool-cases, List, Option, String, [], eq_iff, false, false≢true, if◌then◌else◌, inl, inr,
  is_empty, none, not, refl, some, starts_with, str_eq, sym, true, ℕ, ◌&&◌, ◌<>◌, ◌∙◌, ◌∷◌, ◌≡◌,
  ◌≢◌, ◌⊎◌,
}
use parser_os_worker.Service.{Reply, answer, failure}
use parser_os_worker.Service.Action.{Option-cases, Reply-cases}
use parser_os_worker.WriteBack.{
  Bucket, Counts, Folder, LocalFile, Run, Sizes, connected, delete_name, dirs, find_folder,
  finish_with, folders_of, has_file, is_current, is_registry, no_counts, prune, remote_sizes,
  send_blob, send_cache, send_dir, send_dirs, send_file, send_files, send_log, size_of, walk,
  write_back,
}
use parser_os_worker.WriteBack.Laws.{
  All, All-map, Entries, IsLawful, Listed, files_under, has_some, other_dir, prunable,
  sizes_from-Entries,
}

module _ (B : Bucket) (L : IsLawful B) (j : String) where
  open B use {State}

  -- the blob is there
  abbrev There : State → Type 0
  There s = B.get s j ≢ none

  there_if :
      (b : Bool) (body : List ℕ) (o : Option (List ℕ))
      → o ≢ none
      → (if b then some body else o) ≢ none
  there_if true body o h = λ e. cc
  there_if false body o h = h

  upload-There : (n : String) (body : List ℕ) (s : State) → There s → There (B.upload n body s).1
  upload-There n body s h = elim (Reply-cases (B.upload n body s).0) [
    | inl (a, e) ↦ rw (L.get-upload n j body s e) (there_if (str_eq n j) body (B.get s j) h)
    | inr (x, e) ↦ elim (L.get-upload_failed n j body s x e) [
      | inl f ↦ rw f h
      | inr (_, f) ↦ rw f (λ g. cc)
    ]
  ]

  delete-There : (n : String) (s : State) → str_eq n j ≡ false → There s → There (B.delete n s).1
  delete-There n s d h = elim (Reply-cases (B.delete n s).0) [
    | inl (a, e) ↦ rw (L.get-delete n j s e, d) h
    | inr (x, e) ↦ elim (L.get-delete_failed n j s x e) [
      | inl f ↦ rw f h
      | inr f ↦ absurd (false≢true (sym d ∙ f))
    ]
  ]

  send_blob-There :
      (n : String) (body : List ℕ) (t : Counts) (s : State)
      → There s
      → There (send_blob B n body (t, s)).1
  unfolding send_blob
  send_blob-There n body t s h = upload-There n body s h

  send_file-There :
      (remote : Sizes) (f : LocalFile) (t : Counts) (s : State)
      → There s
      → There (send_file B remote f (t, s)).1
  unfolding send_file
  send_file-There remote f t s h = elim (Reply-cases f.size) [
    | inr (x, e) ↦ rw e h
    | inl (n, e) ↦ elim (Bool-cases (is_current B (size_of f.name remote) n)) [
      | inl c ↦ rw (e, c) h
      | inr c ↦ elim (Reply-cases f.content) [
        | inr (x, g) ↦ rw (e, c, g) h
        | inl (body, g) ↦ rw (e, c, g) (send_blob-There f.name body t s h)
      ]
    ]
  ]

  send_files-There :
      (remote : Sizes) (files : List LocalFile) (r : Run B)
      → There r.1
      → There (send_files B remote files r).1
  unfolding send_files
  send_files-There remote [] r h = h
  send_files-There remote (f ∷ fs) r h =
      send_files-There remote fs (send_file B remote f r) (send_file-There remote f r.0 r.1 h)

  -- a name that a pruning passes over, or that is another blob's
  abbrev Spares : List LocalFile → String → Type 0
  Spares files n = (has_file n files ≡ true) ⊎ (str_eq n j ≡ false)

  prune-There :
      (files : List LocalFile) (remote : Sizes) (r : Run B)
      → Entries (λ n _. Spares files n) remote
      → There r.1
      → There (prune B files remote r).1
  unfolding prune delete_name
  prune-There files [] r a h = h
  prune-There files ((n, k) ∷ remote) r (inl kept, a) h =
      rw (kept, prune) (prune-There files remote r a h)
  prune-There files ((n, k) ∷ remote) r (inr other, a) h = elim (Bool-cases (has_file n files)) [
    | inl kept ↦ rw (kept, prune) (prune-There files remote r a h)
    | inr gone ↦
        rw (gone, prune)
          (prune-There files remote (delete_name B n r) a (delete-There n r.1 other h))
  ]

  missed : (p n : String) → starts_with j p ≡ false → starts_with n p ≡ true → str_eq n j ≡ false
  missed p n a b = elim (Bool-cases (str_eq n j)) [
    | inr e ↦ e
    | inl e ↦ absurd (false≢true (sym a ∙ (rw (← (eq_iff n j).0 e) b)))
  ]

  -- a listing names only what is under its prefix, and a file that is there is kept
  name-Spares :
      (p n : String) (files : List LocalFile)
      → (starts_with j p ≡ false) ⊎ (has_file j files ≡ true)
      → starts_with n p ≡ true
      → Spares files n
  name-Spares p n files (inl out) h = inr (missed p n out h)
  name-Spares p n files (inr kept) h = elim (Bool-cases (str_eq n j)) [
    | inl e ↦ inl (rw ((eq_iff n j).0 e) kept)
    | inr e ↦ inr e
  ]

  remote-Spares :
      (p : String) (s : State) (files : List LocalFile)
      → (starts_with j p ≡ false) ⊎ (has_file j files ≡ true)
      → Entries (λ n _. Spares files n) (remote_sizes B p s)
  unfolding remote_sizes
  remote-Spares p s files h = elim (Reply-cases (B.list p s)) [
    | inr (x, e) ↦ rw (e, remote_sizes) tt
    | inl (l, e) ↦
        rw (e, remote_sizes)
          (sizes_from-Entries (λ n _. Spares files n) [] l tt
            (All-map (Listed B p s) (λ (n, k). Spares files n) l
              (λ (n, k) x. name-Spares p n files h x.0) (L.list-Listed p s l e)))
  ]

  -- why a directory's turn leaves the blob there
  abbrev Left : String → List LocalFile → Type 0
  Left d files =
      (is_registry B d files ≡ false)
      ⊎ ((starts_with j (d <> "/") ≡ false) ⊎ (has_file j files ≡ true))

  send_dir-There :
      (d : String) (base : Folder) (r : Run B)
      → Left d (walk d base)
      → There r.1
      → There (send_dir B d base r).1
  unfolding send_dir
  send_dir-There d base (t, s) left h =
      let remote = remote_sizes B (d <> "/") s in
      let files = walk d base in
      let sent = send_files-There remote files (t, s) h in
      elim left [
        | inl e ↦ rw (e, send_dir) sent
        | inr f ↦ elim (Bool-cases (is_registry B d files)) [
          | inr e ↦ rw (e, send_dir) sent
          | inl e ↦
              rw (e, send_dir)
                (prune-There files remote (send_files B remote files (t, s))
                  (remote-Spares (d <> "/") s files f) sent)
        ]
      ]

  send_dirs-There :
      (top : Folder) (ds : List String) (r : Run B)
      → All (λ d. Left d (files_under top d)) ds
      → There r.1
      → There (send_dirs B (folders_of top) ds r).1
  unfolding send_dirs
  send_dirs-There top [] r a h = h
  send_dirs-There top (d ∷ ds) r (left, a) h =
      elim (Option-cases (find_folder d (folders_of top))) [
        | inl e ↦ rw (e, send_dirs) (send_dirs-There top ds r a h)
        | inr (base, e) ↦
            rw (e, send_dirs)
              (send_dirs-There top ds (send_dir B d base r) a
                (send_dir-There d base r (rw e at left) h))
      ]

  -- a blob that is not to be pruned is left by the turn of the registry
  registry-Left :
      (a b : Bool) (files : List LocalFile)
      → starts_with j "_head_registry/" ≡ a
      → has_file j files ≡ b
      → (a && not b && has_some files) ≡ false
      → Left "_head_registry" files
  registry-Left false b files e f h = inr (inl e)
  registry-Left true true files e f h = inr (inr f)
  registry-Left true false [] e f h = inl refl
  registry-Left true false (x ∷ files) e f h = absurd (false≢true (sym h))

  log-There : (o : Option LocalFile) (r : Run B) → There r.1 → There (send_log B o r).1
  unfolding send_log
  log-There none (t, s) h = h
  log-There (some f) (t, s) h = elim (Reply-cases f.content) [
    | inr (x, e) ↦ rw (e, send_log) h
    | inl (body, e) ↦ rw (e, send_log) (upload-There "_training_deepseek.db" body s h)
  ]

  cache-There : (o : Option LocalFile) (r : Run B) → There r.1 → There (send_cache B o r).1
  unfolding send_cache
  cache-There none r h = h
  cache-There (some f) r h = elim (Reply-cases f.size) [
    | inr (x, e) ↦ rw (e, send_cache) h
    | inl (n, e) ↦ elim (Reply-cases f.content) [
      | inr (x, g) ↦ rw (e, g, send_cache) h
      | inl (body, g) ↦ rw (e, g, send_cache) (send_blob-There "_embed_cache.db" body r.0 r.1 h)
    ]
  ]

  finish-There :
      (o : Option LocalFile) (r : Reply Counts × State) → There r.1 → There (finish_with B o r).1
  finish-There o (failure e, s) h = h
  finish-There o (answer t, s) h = cache-There o (t, s) h

  connected-There :
      (r : Reply (Unit {0})) (top : Folder) (s : State)
      → prunable top j ≡ false
      → There s
      → There (connected B r top s).1
  unfolding connected prunable
  connected-There (failure e) top s p h = h
  connected-There (answer a) top s p h = finish-There _ _ (
      log-There _ _ (
        send_dirs-There top dirs (no_counts, s)
          (
            registry-Left _ _ (files_under top "_head_registry") refl refl p,
            (
              inl (other_dir B "_calibrator" _ refl),
              (inl (other_dir B "_type_head" _ refl), (inl (other_dir B "_span_heads" _ refl), tt)),
            ),
          )
          h))

  main-There :
      (conn : String) (top : Folder) (s : State)
      → prunable top j ≡ false
      → There s
      → There (write_back B conn top s).1
  unfolding write_back
  main-There conn top s p h = elim (Bool-cases (is_empty conn)) [
    | inl e ↦ rw (e, write_back) h
    | inr e ↦ rw (e, write_back) (connected-There B.connect top s p h)
  ]

-- Whatever fails: a blob that is in the container before a write-back is there after it, unless its
-- name is in the registry, no file of that name is on the disk, and some file of the registry is.
pub write_back-keeps :
    (B : Bucket) (conn : String) (top : Folder) (s : B.State) (j : String)
    → IsLawful B
    → prunable top j ≡ false
    → B.get s j ≢ none
    → B.get (write_back B conn top s).1 j ≢ none
write_back-keeps B conn top s j L p h = main-There B L j conn top s p h
