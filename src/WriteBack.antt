-- ===== src/WriteBack.antt =====
-- write_back_ml.py: what the retrained heads and the training log leave in the blob container
-- ml-artifacts. The container is the parameter `Bucket`, the local directory a tree of files.
pub mod Laws
pub mod Memory
pub mod Mirror
pub mod Safety
use parser_os_worker.Base.{
  Bool, List, Option, String, [], false, get_or, if◌then◌else◌, is_empty, maybe, none, some, str_eq,
  ℕ, ◌++◌, ◌+◌, ◌<>◌, ◌==◌, ◌||◌, ◌∷◌,
}
use parser_os_worker.Service.{Exc, Reply, answer, failure, replied}

-- A blob container: its client's calls on whatever state it is in, any of which may raise. `get` says
-- what a blob holds; the program does not call it, the laws of the container do.
pub record Bucket : Type 1 where
  pub State : Type 0
  pub get : State → String → Option (List ℕ)
  pub connect : Reply (Unit {0})
  pub list : String → State → Reply (List (String × Option ℕ))
  pub upload : String → List ℕ → State → Reply (Unit {0}) × State
  pub delete : String → State → Reply (Unit {0}) × State

-- A file: its name, what os.path.getsize says, and what reading it gives.
pub record LocalFile : Type 0 where
  pub name : String
  pub size : Reply ℕ
  pub content : Reply (List ℕ)

mutual
  -- a directory: its files, and its directories
  pub data Folder : Type 0 where
    folder : List LocalFile → Folders → Folder

  pub data Folders : Type 0 where
    no_subfolders : Folders
    subfolder : String → Folder → Folders → Folders

-- the files under `path`, named_file from the top
abbrev pub at_path : String → List LocalFile → List LocalFile
at_path path [] = []
at_path path (f ∷ fs) = record f { name = path <> "/" <> f.name } ∷ at_path path fs

unfoldable mutual
  -- os.walk, from the top down, with os.path.relpath of each file
  pub walk : String → Folder → List LocalFile
  walk path (folder files folders) = at_path path files ++ walk_folders path folders

  pub walk_folders : String → Folders → List LocalFile
  walk_folders path no_subfolders = []
  walk_folders path (subfolder name f rest) = walk (path <> "/" <> name) f ++ walk_folders path rest

-- os.path.isdir, with the directory
abbrev pub find_folder : String → Folders → Option Folder
find_folder d no_subfolders = none
find_folder d (subfolder name f rest) = if str_eq name d then some f else find_folder d rest

-- os.path.isfile, with the file
abbrev pub find_file : String → List LocalFile → Option LocalFile
find_file n [] = none
find_file n (f ∷ fs) = if str_eq f.name n then some f else find_file n fs

abbrev pub folders_of : Folder → Folders
folders_of (folder files folders) = folders

abbrev pub files_of : Folder → List LocalFile
files_of (folder files folders) = files

-- sent, skipped, deleted
pub record Counts : Type 0 where
  pub sent : ℕ
  pub skipped : ℕ
  pub deleted : ℕ

abbrev pub no_counts : Counts
no_counts = record { sent = 0; skipped = 0; deleted = 0 }

-- How `main` ends: without a connection string, at its last line, or in its handler.
pub data Ending : Type 0 where
  unset : Ending
  persisted : Counts → Ending
  skipped_by : Exc → Ending

-- DIRS
abbrev pub dirs : List String
dirs = "_head_registry" ∷ "_calibrator" ∷ "_type_head" ∷ "_span_heads" ∷ []

abbrev pub Sizes : Type 0
Sizes = List (String × ℕ)

-- d[name] = size
pub set_size : String → ℕ → Sizes → Sizes
set_size n k [] = (n, k) ∷ []
set_size n k ((m, j) ∷ d) = if str_eq m n then (n, k) ∷ d else (m, j) ∷ set_size n k d

-- remote.get(name)
abbrev pub size_of : String → Sizes → Option ℕ
size_of n [] = none
size_of n ((m, j) ∷ d) = if str_eq m n then some j else size_of n d

-- {b.name: (b.size or 0) for b in blobs}
pub sizes_from : Sizes → List (String × Option ℕ) → Sizes
unfolding set_size
sizes_from d [] = d
sizes_from d ((n, k) ∷ l) = sizes_from (set_size n (get_or 0 k) d) l

-- name in local
abbrev pub has_file : String → List LocalFile → Bool
has_file n [] = false
has_file n (f ∷ fs) = str_eq f.name n || has_file n fs

module _ (B : Bucket) where
  open B use {State}

  abbrev pub Run : Type 0
  Run = Counts × State

  -- _remote_sizes, where a listing that fails is an empty one
  unfoldable pub remote_sizes : String → State → Sizes
  unfolding sizes_from
  remote_sizes prefix s = elim (B.list prefix s) [ answer l ↦ sizes_from [] l | failure e ↦ [] ]

  is_current : Option ℕ → ℕ → Bool
  is_current none n = false
  is_current (some m) n = m == n

  -- cc.upload_blob(name, ...), counted if it came back
  unfoldable pub send_blob : String → List ℕ → Run → Run
  send_blob name body (t, s) =
      let (r, s') = B.upload name body s in
      (replied r (λ e. t) (λ _. record t { sent = t.sent + 1 }), s')

  -- one file of a directory
  unfoldable pub send_file : Sizes → LocalFile → Run → Run
  unfolding is_current send_blob
  send_file remote f (t, s) =
      replied f.size (λ e. (t, s))
        λ n.
          if is_current (size_of f.name remote) n
          then (record t { skipped = t.skipped + 1 }, s)
          else replied f.content (λ e. (t, s)) (λ body. send_blob f.name body (t, s))

  unfoldable pub send_files : Sizes → List LocalFile → Run → Run
  send_files remote [] r = r
  send_files remote (f ∷ fs) r = send_files remote fs (send_file remote f r)

  -- cc.delete_blob(name), counted if it came back
  unfoldable pub delete_name : String → Run → Run
  delete_name name (t, s) =
      let (r, s') = B.delete name s in
      (replied r (λ e. t) (λ _. record t { deleted = t.deleted + 1 }), s')

  -- the deletions of the registry are mirrored
  unfoldable pub prune : List LocalFile → Sizes → Run → Run
  prune files [] r = r
  prune files ((n, k) ∷ remote) r =
      prune files remote (if has_file n files then r else delete_name n r)

  abbrev is_registry : String → List LocalFile → Bool
  is_registry d [] = false
  is_registry d (f ∷ fs) = str_eq d "_head_registry"

  unfoldable pub send_dir : String → Folder → Run → Run
  send_dir d base (t, s) =
      let remote = remote_sizes (d <> "/") s in
      let files = walk d base in
      let r = send_files remote files (t, s) in
      if is_registry d files then prune files remote r else r

  unfoldable pub send_dirs : Folders → List String → Run → Run
  send_dirs top [] r = r
  send_dirs top (d ∷ ds) r =
      send_dirs top ds (maybe (find_folder d top) r (λ base. send_dir d base r))

  -- _training_deepseek.db: what goes wrong here ends in the handler of `main`
  unfoldable pub send_log : Option LocalFile → Run → Reply Counts × State
  send_log none (t, s) = (answer t, s)
  send_log (some f) (t, s) =
      replied f.content (λ e. (failure e, s))
        λ body.
          let (r, s') = B.upload "_training_deepseek.db" body s in
          (replied r failure (λ _. answer (record t { sent = t.sent + 1 })), s')

  -- _embed_cache.db, whose failure is only printed
  unfoldable pub send_cache : Option LocalFile → Run → Run
  unfolding send_blob
  send_cache none r = r
  send_cache (some f) r =
      replied f.size (λ e. r)
        λ n. replied f.content (λ e. r) (λ body. send_blob "_embed_cache.db" body r)

  abbrev finish_with : Option LocalFile → Reply Counts × State → Ending × State
  finish_with f (failure e, s) = (skipped_by e, s)
  finish_with f (answer t, s) = let (t', s') = send_cache f (t, s) in (persisted t', s')

  -- `main` from the client on
  pub connected : Reply (Unit {0}) → Folder → State → Ending × State
  unfolding send_dirs send_log send_cache
  connected (failure e) top s = (skipped_by e, s)
  connected (answer a) top s = finish_with (find_file "_embed_cache.db" (files_of top)) (
      send_log (find_file "_training_deepseek.db" (files_of top))
        (send_dirs (folders_of top) dirs (no_counts, s)))

  -- main
  unfoldable pub write_back : String → Folder → State → Ending × State
  unfolding connected
  write_back conn top s = if is_empty conn then (unset, s) else connected B.connect top s
