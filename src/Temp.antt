-- ===== src/Temp.antt =====
-- `_tmp_root`, `_scrub_stale_worker_tmp` and `_assert_tmp_has_space`: the leftovers of killed
-- processes in the temp directory, and the space that a compile asks for.
pub mod Effects
use parser_os_worker.Base.{
  Bool, List, Option, String, [], false, if◌then◌else◌, is_empty, leb, ltb, maybe, none, not, some,
  suc, ℕ, ◌<>◌, ◌∷◌,
}
use parser_os_worker.Json.Numbers.{show_nat}
use parser_os_worker.Service.{
  Exc, Host, disk, disk_free, is_directory, is_there, remove_tree, stale_workdirs,
}
use parser_os_worker.Service.Action.{Action, ask, catch, pure, raise, ◌>>=◌, ◌>>◌}

module _ (w : Host) where
  unfoldable tmp_root : String
  tmp_root = if is_empty w.tmpdir then w.default_tmp else w.tmpdir

  -- a directory that is removed, and whether it is gone
  emptied : String → Action Bool
  emptied p = do ask w (disk (remove_tree p)); left ← ask w (disk (is_there p)); pure (not left)

  -- one turn of the loop: whether a directory was removed
  scrub_path : String → Action Bool
  unfolding emptied
  scrub_path p = do
    directory ← ask w (disk (is_directory p))
    if directory then emptied p else pure false

  -- the loop, from a count of removed directories; an exception ends it
  unfoldable pub scrub_paths : List String → ℕ → Action ℕ
  unfolding scrub_path
  scrub_paths [] n = pure n
  scrub_paths (p ∷ ps) n = do
    step ← catch (do removed ← scrub_path p; pure (some removed)) (λ _. pure none)
    maybe step (pure n) λ removed. scrub_paths ps (if removed then suc n else n)

  -- _scrub_stale_worker_tmp
  unfoldable pub scrub_stale : Action ℕ
  unfolding tmp_root
  scrub_stale = do
    paths ← catch (ask w (disk (stale_workdirs tmp_root))) (λ _. pure [])
    scrub_paths paths 0

  -- shutil.disk_usage(root).free; none where it raises
  unfoldable pub free_space : Action (Option ℕ)
  unfolding tmp_root
  free_space =
      catch (do free ← ask w (disk (disk_free tmp_root)); pure (some free)) (λ _. pure none)

  no_space : ℕ → ℕ → Exc
  unfolding show_nat tmp_root
  no_space free needed = record {
    kind = "OSError";
    message =
        "[Errno 28] Insufficient space under "
        <> tmp_root
        <> ": free="
        <> show_nat free
        <> " need>="
        <> show_nat needed;
  }

  -- _assert_tmp_has_space
  unfoldable pub assert_tmp_has_space : ℕ → Action (Unit {0})
  unfolding no_space
  assert_tmp_has_space needed = do
    free ← free_space
    maybe free (pure tt) λ n. if leb needed n then pure tt else (do
      scrub_stale
      again ← free_space
      maybe again (pure tt) λ k. if ltb k needed then raise (no_space k needed) else pure tt)
