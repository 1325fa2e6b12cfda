-- ===== src/WriteBack/Mirror/Whole.antt =====
-- The directories one after the other, the log and the cache: the whole run where nothing fails.
use parser_os_worker.Base.{
  Bool, List, Option, String, [], and_false, ap, false, if◌then◌else◌, inl, inr, is_empty, is_some,
  length, maybe, none, not, or_else, refl, some, starts_with, str_eq, subst, sym, true, ℕ, ◌&&◌,
  ◌+◌, ◌<>◌, ◌∙◌, ◌∷◌, ◌≡◌,
}
use parser_os_worker.Service.{Reply, answer, failure}
use parser_os_worker.Service.Action.{Option-cases}
use parser_os_worker.WriteBack.{
  Bucket, Counts, Folder, LocalFile, Run, connected, dirs, files_of, find_file, find_folder,
  finish_with, folders_of, has_file, is_registry, no_counts, persisted, prune, remote_sizes,
  send_cache, send_dir, send_dirs, send_files, send_log, size_of, walk, write_back,
}
use parser_os_worker.WriteBack.Laws.{
  All, AreArtifacts, IsLawful, IsReliable, Readable?, content_of, files_under, has_some, mirror,
  named_file, other_dir, prunable, size_of-Entries,
}
use parser_os_worker.WriteBack.Mirror.{
  Fits, Sized, Sized-listed, content-Fits, get-prune, get-send_blob, get-send_files, if_Fits,
  listed_all, no_content, or_else-Fits, registry_effect, unlisted,
}

module _ (B : Bucket) (L : IsLawful B) (R : IsReliable B) (j : String)
    (May : String → List ℕ → Type 0)
    (sized : (n : String) (a b : List ℕ) → May n a → May n b → length a ≡ length b → a ≡ b) where
  open B use {State}

  -- the sizes that a directory's turn starts from
  fresh :
      (p : String) (s : State) (k : ℕ)
      → size_of j (remote_sizes B p s) ≡ some k
      → Sized B L R j s j k
  fresh p s k e =
      size_of-Entries (Sized B L R j s) j (remote_sizes B p s) k (Sized-listed B L R j p s) e

  get-send_dir :
      (d : String) (base : Folder) (r : Run B)
      → str_eq d "_head_registry" ≡ false
      → AreArtifacts May (walk d base)
      → Fits B L R j May sized (B.get r.1 j)
      → B.get (send_dir B d base r).1 j ≡ or_else (content_of j (walk d base)) (B.get r.1 j)
  unfolding send_dir
  get-send_dir d base (t, s) other a fits =
      rw (other_dir B d (walk d base) other, send_dir)
        (get-send_files B L R j May sized (remote_sizes B (d <> "/") s) (walk d base) (t, s) a fits
          (fresh (d <> "/") s))

  -- the turn of a directory that DIRS names, whether it is there or not
  get-turn :
      (top : Folder) (d : String) (r : Run B)
      → str_eq d "_head_registry" ≡ false
      → AreArtifacts May (files_under top d)
      → Fits B L R j May sized (B.get r.1 j)
      → B.get (maybe (find_folder d (folders_of top)) r (λ base. send_dir B d base r)).1 j
        ≡ or_else (content_of j (files_under top d)) (B.get r.1 j)
  get-turn top d r other a fits = elim (Option-cases (find_folder d (folders_of top))) [
    | inl e ↦ rw e refl
    | inr (base, e) ↦ rw e (get-send_dir d base r other (rw e at a) fits)
  ]

  registry_turn :
      (files : List LocalFile) (r : Run B)
      → AreArtifacts May files
      → Fits B L R j May sized (B.get r.1 j)
      → let remote = remote_sizes B "_head_registry/" r.1 in
        let sent = send_files B remote files r in
        B.get (if is_registry B "_head_registry" files then prune B files remote sent else sent).1 j
        ≡ (if starts_with j "_head_registry/" && not (has_file j files) && has_some files
            then none
            else or_else (content_of j files) (B.get r.1 j))
  unfolding send_files
  registry_turn [] r a fits = rw and_false refl
  registry_turn (f ∷ fs) r a fits =
      let remote = remote_sizes B "_head_registry/" r.1 in
      get-prune B L R j (f ∷ fs) remote (send_files B remote (f ∷ fs) r)
      ∙ ap (λ o. if is_some (size_of j remote) && not (has_file j (f ∷ fs)) then none else o)
          (get-send_files B L R j May sized remote (f ∷ fs) r a fits (fresh "_head_registry/" r.1))
      ∙ registry_effect _ (has_file j (f ∷ fs)) (is_some (size_of j remote)) (content_of j (f ∷ fs))
          (B.get r.1 j) (no_content B L R j (f ∷ fs)) (unlisted B L R j "_head_registry/" r.1)
          (listed_all B L R j "_head_registry/" r.1)

  get-registry :
      (top : Folder) (r : Run B)
      → AreArtifacts May (files_under top "_head_registry")
      → Fits B L R j May sized (B.get r.1 j)
      → B.get
          (maybe
            (find_folder "_head_registry" (folders_of top))
            r
            (λ base. send_dir B "_head_registry" base r)).1
          j
        ≡ (if prunable top j
            then none
            else or_else (content_of j (files_under top "_head_registry")) (B.get r.1 j))
  unfolding prunable send_dir
  get-registry top r a fits = elim (Option-cases (find_folder "_head_registry" (folders_of top))) [
    | inl e ↦ rw (e, and_false) refl
    | inr (base, e) ↦ rw e (registry_turn (walk "_head_registry" base) r (rw e at a) fits)
  ]

  abbrev TurnFits : (top : Folder) (d : String) (o : Option (List ℕ)) → Type 0
  TurnFits top d o = Fits B L R j May sized (or_else (content_of j (files_under top d)) o)

  abbrev Artifacts : Folder → String → Type 0
  Artifacts top d = AreArtifacts May (files_under top d)

  turn-Fits :
      (top : Folder) (d : String) (o : Option (List ℕ))
      → Artifacts top d
      → Fits B L R j May sized o
      → TurnFits top d o
  turn-Fits top d o a h =
      or_else-Fits B L R j May sized (content_of j (files_under top d)) o
        (content-Fits B L R j May sized (files_under top d) a.0) h

  -- the four directories
  get-send_dirs :
      (top : Folder) (r : Run B)
      → All (Artifacts top) dirs
      → Fits B L R j May sized (B.get r.1 j)
      → B.get (send_dirs B (folders_of top) dirs r).1 j
        ≡ or_else (content_of j (files_under top "_span_heads")) (
            or_else (content_of j (files_under top "_type_head")) (
              or_else (content_of j (files_under top "_calibrator")) (
                if prunable top j
                then none
                else or_else (content_of j (files_under top "_head_registry")) (B.get r.1 j))))
  unfolding send_dirs
  get-send_dirs top r (a, (b, (c, (d, u)))) fits =
      let F : Option (List ℕ) → Type 0 = Fits B L R j May sized in
      let e = get-registry top r a fits in
      let fe = subst F (sym e) (
        if_Fits B L R j May sized (prunable top j) none _ tt
          (turn-Fits top "_head_registry" _ a fits)) in
      let f = get-turn top "_calibrator" _ refl b fe in
      let ff = subst F (sym f) (turn-Fits top "_calibrator" _ b fe) in
      let g = get-turn top "_type_head" _ refl c ff in
      let fg = subst F (sym g) (turn-Fits top "_type_head" _ c ff) in
      let h = get-turn top "_span_heads" _ refl d fg in
      h
      ∙ ap (or_else (content_of j (files_under top "_span_heads"))) (
          g
          ∙ ap (or_else (content_of j (files_under top "_type_head")))
              (f ∙ ap (or_else (content_of j (files_under top "_calibrator"))) e))

  fitting :
      (o : Option (List ℕ))
      → ((body : List ℕ) → o ≡ some body → May j body)
      → Fits B L R j May sized o
  fitting none h = tt
  fitting (some body) h = h body refl

  named_or :
      (same : Bool) (body : List ℕ) (old : Option (List ℕ))
      → (if same then some body else old) ≡ or_else (if same then some body else none) old
  named_or false body old = refl
  named_or true body old = refl

  get-log :
      (o : Option LocalFile) (r : Run B)
      → Readable? o
      → (t : Counts) × ((send_log B o r).0 ≡ answer t)
        × (B.get (send_log B o r).1 j
            ≡ or_else (named_file "_training_deepseek.db" j o) (B.get r.1 j))
  unfolding send_log
  get-log none (t, s) h = (t, refl, refl)
  get-log (some f) (t, s) (body, long, content) =
      let up = R.uploads "_training_deepseek.db" body s in
      (
        record t { sent = t.sent + 1 },
        rw (content, up, send_log) refl,
        rw (content, send_log)
            (L.get-upload "_training_deepseek.db" j body s up
              ∙ named_or (str_eq "_training_deepseek.db" j) body (B.get s j)),
      )

  get-cache :
      (o : Option LocalFile) (r : Run B)
      → Readable? o
      → B.get (send_cache B o r).1 j ≡ or_else (named_file "_embed_cache.db" j o) (B.get r.1 j)
  unfolding send_cache
  get-cache none r h = refl
  get-cache (some f) (t, s) (body, long, content) =
      rw (long, content, send_cache)
        (get-send_blob B L R j "_embed_cache.db" body t s
          ∙ named_or (str_eq "_embed_cache.db" j) body (B.get s j))

  get-finish :
      (o : Option LocalFile) (q : Reply Counts × State) (t : Counts)
      → Readable? o
      → q.0 ≡ answer t
      → ((n : Counts) × ((finish_with B o q).0 ≡ persisted n))
        × (B.get (finish_with B o q).1 j ≡ or_else (named_file "_embed_cache.db" j o) (B.get q.1 j))
  get-finish o (answer u, s) t h e = (((send_cache B o (u, s)).0, refl), get-cache o (u, s) h)
  get-finish o (failure x, s) t h e = cc

  get-connected :
      (c : Reply (Unit {0})) (top : Folder) (s : State)
      → c ≡ answer tt
      → All (Artifacts top) dirs
      → Readable? (find_file "_training_deepseek.db" (files_of top))
      → Readable? (find_file "_embed_cache.db" (files_of top))
      → Fits B L R j May sized (B.get s j)
      → ((n : Counts) × ((connected B c top s).0 ≡ persisted n))
        × (B.get (connected B c top s).1 j ≡ mirror top j (B.get s j))
  unfolding connected mirror
  get-connected (failure x) top s e a l k fits = cc
  get-connected (answer tt) top s e a l k fits =
      let log = find_file "_training_deepseek.db" (files_of top) in
      let cache = find_file "_embed_cache.db" (files_of top) in
      let sent = get-send_dirs top (no_counts, s) a fits in
      let (t, back, f) = get-log log (send_dirs B (folders_of top) dirs (no_counts, s)) l in
      let (n, g) = get-finish cache _ t k back in
      (
        n,
        g
            ∙ ap (or_else (named_file "_embed_cache.db" j cache))
                (f ∙ ap (or_else (named_file "_training_deepseek.db" j log)) sent),
      )

-- Where nothing fails, the disk can be read and a name determines its content by the length: a run with
-- a connection string comes to its last line, and every blob of the container is then what `mirror` says:
-- the local file of that name if there is one, nothing if it is a blob of the registry that the disk has
-- no more, and otherwise what it was.
pub write_back-mirror :
    (B : Bucket) (conn : String) (top : Folder) (s : B.State) (j : String)
    (May : String → List ℕ → Type 0)
    → IsLawful B
    → IsReliable B
    → ((n : String) (a b : List ℕ) → May n a → May n b → length a ≡ length b → a ≡ b)
    → is_empty conn ≡ false
    → All (λ d. AreArtifacts May (files_under top d)) dirs
    → Readable? (find_file "_training_deepseek.db" (files_of top))
    → Readable? (find_file "_embed_cache.db" (files_of top))
    → ((body : List ℕ) → B.get s j ≡ some body → May j body)
    → ((n : Counts) × ((write_back B conn top s).0 ≡ persisted n))
      × (B.get (write_back B conn top s).1 j ≡ mirror top j (B.get s j))
unfolding write_back
write_back-mirror B conn top s j May L R sized e a l k fits =
    rw (e, write_back)
      (get-connected B L R j May sized B.connect top s R.connected a l k
        (fitting B L R j May sized (B.get s j) fits))
