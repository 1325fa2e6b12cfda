-- ===== src/Temp/Effects.antt =====
-- The calls of the temp directory's functions are on the disk, and they end by returning or raising.
use parser_os_worker.Base.{Bool, List, String, [], true, ℕ, ◌∷◌, ◌≡◌}
use parser_os_worker.Service.{
  Call, DiskTask, Host, disk, disk_free, is_directory, is_there, remove_tree, stale_workdirs,
}
use parser_os_worker.Service.Action.{ask}
use parser_os_worker.Service.Only.{Only, Only-ask, Only-pure}
use parser_os_worker.Service.Only.Rules.{only_rules}
use parser_os_worker.Service.Returns.{Stays, Stays-ask, Stays-pure}
use parser_os_worker.Service.Returns.Rules.{stays_rules}
use parser_os_worker.Temp.{
  assert_tmp_has_space, emptied, free_space, scrub_path, scrub_paths, scrub_stale,
}

module _ (w : Host) (p : Call → Bool) (h : (t : DiskTask) → p (disk t) ≡ true) where
  Only-stale_workdirs : (r : String) → Only p (ask w (disk (stale_workdirs r)))
  Only-stale_workdirs r = Only-ask w (disk (stale_workdirs r)) (h _)

  Only-is_directory : (x : String) → Only p (ask w (disk (is_directory x)))
  Only-is_directory x = Only-ask w (disk (is_directory x)) (h _)

  Only-remove_tree : (x : String) → Only p (ask w (disk (remove_tree x)))
  Only-remove_tree x = Only-ask w (disk (remove_tree x)) (h _)

  Only-is_there : (x : String) → Only p (ask w (disk (is_there x)))
  Only-is_there x = Only-ask w (disk (is_there x)) (h _)

  Only-disk_free : (r : String) → Only p (ask w (disk (disk_free r)))
  Only-disk_free r = Only-ask w (disk (disk_free r)) (h _)

  ruleset disk_rules = (
    only_rules, Only-stale_workdirs, Only-is_directory, Only-remove_tree, Only-is_there,
    Only-disk_free,
  )

  scrub_path-Only : (x : String) → Only p (scrub_path w x)
  unfolding scrub_path emptied
  scrub_path-Only x = search disk_rules depth 12

  scrub_paths-Only : (l : List String) (n : ℕ) → Only p (scrub_paths w l n)
  unfolding scrub_paths
  scrub_paths-Only [] n = Only-pure n
  scrub_paths-Only (x ∷ l) n = search (disk_rules, scrub_path-Only, scrub_paths-Only l) depth 12

  pub scrub_stale-Only : Only p (scrub_stale w)
  unfolding scrub_stale
  scrub_stale-Only = search (disk_rules, scrub_paths-Only) depth 12

  free_space-Only : Only p (free_space w)
  unfolding free_space
  free_space-Only = search disk_rules depth 12

  pub assert_tmp_has_space-Only : (n : ℕ) → Only p (assert_tmp_has_space w n)
  unfolding assert_tmp_has_space
  assert_tmp_has_space-Only n = search (disk_rules, scrub_stale-Only, free_space-Only) depth 14

module _ (w : Host) where
  Stays-stale_workdirs : (r : String) → Stays (ask w (disk (stale_workdirs r)))
  Stays-stale_workdirs r = Stays-ask w (disk (stale_workdirs r))

  Stays-is_directory : (x : String) → Stays (ask w (disk (is_directory x)))
  Stays-is_directory x = Stays-ask w (disk (is_directory x))

  Stays-remove_tree : (x : String) → Stays (ask w (disk (remove_tree x)))
  Stays-remove_tree x = Stays-ask w (disk (remove_tree x))

  Stays-is_there : (x : String) → Stays (ask w (disk (is_there x)))
  Stays-is_there x = Stays-ask w (disk (is_there x))

  Stays-disk_free : (r : String) → Stays (ask w (disk (disk_free r)))
  Stays-disk_free r = Stays-ask w (disk (disk_free r))

  ruleset disk_stays = (
    stays_rules, Stays-stale_workdirs, Stays-is_directory, Stays-remove_tree, Stays-is_there,
    Stays-disk_free,
  )

  scrub_path-Stays : (x : String) → Stays (scrub_path w x)
  unfolding scrub_path emptied
  scrub_path-Stays x = search disk_stays depth 12

  scrub_paths-Stays : (l : List String) (n : ℕ) → Stays (scrub_paths w l n)
  unfolding scrub_paths
  scrub_paths-Stays [] n = Stays-pure n
  scrub_paths-Stays (x ∷ l) n = search (disk_stays, scrub_path-Stays, scrub_paths-Stays l) depth 12

  pub scrub_stale-Stays : Stays (scrub_stale w)
  unfolding scrub_stale
  scrub_stale-Stays = search (disk_stays, scrub_paths-Stays) depth 12

  free_space-Stays : Stays (free_space w)
  unfolding free_space
  free_space-Stays = search disk_stays depth 12

  pub assert_tmp_has_space-Stays : (n : ℕ) → Stays (assert_tmp_has_space w n)
  unfolding assert_tmp_has_space
  assert_tmp_has_space-Stays n = search (disk_stays, scrub_stale-Stays, free_space-Stays) depth 14
