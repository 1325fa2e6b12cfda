-- ===== src/Recovery/Effects.antt =====
-- Recovery polls no queue, and deletes no message but keepalives.

use parser_os_worker.Active.{marker}
use parser_os_worker.Active.Effects.{clear-Stays, clear-storage}
use parser_os_worker.Base.{List, Option, String, [], none, some, ◌∷◌}
use parser_os_worker.Json.{Fields}
use parser_os_worker.Keepalive.Effects.{delete_keepalive-Stays, delete_keepalive-desk, own_desk}
use parser_os_worker.Progress.Effects.{
  fail_progress-Stays, fail_progress-storage, read_progress-Stays, read_progress-storage,
}
use parser_os_worker.Recovery.{
  fail_run, lift, recover_blob, recover_blobs, recover_dead_runs, recover_marker,
}
use parser_os_worker.Service.{Host, Reply, SimpleJob, answer, failure}
use parser_os_worker.Service.Calls.{desk_of_storage}
use parser_os_worker.Service.Only.{Only, Only-bind, Only-pure, Only-raise}
use parser_os_worker.Service.Only.Rules.{only_rules}
use parser_os_worker.Service.Returns.{Stays, Stays-bind, Stays-pure, Stays-raise}
use parser_os_worker.Service.Returns.Rules.{stays_rules}
use parser_os_worker.Status.Effects.{
  read_dict-Stays, read_dict-storage, write_status-Stays, write_status-storage,
}

module _ (w : Host) where
  ruleset storage_effects = (
    only_rules, desk_of_storage, read_dict-storage, read_progress-storage, write_status-storage,
    fail_progress-storage, clear-storage,
  )

  lift-desk : {A : Type 0} (r : Reply A) → Only (own_desk w) (lift w r)
  unfolding lift
  lift-desk (answer a) = Only-pure a
  lift-desk (failure e) = Only-raise e

  fail_run-desk : (marker : Fields) (job : SimpleJob) → Only (own_desk w) (fail_run w marker job)
  unfolding fail_run
  fail_run-desk marker job = search (storage_effects, lift-desk, delete_keepalive-desk) depth 12

  recover_marker-desk : (m : Option Fields) → Only (own_desk w) (recover_marker w m)
  unfolding recover_marker
  recover_marker-desk none = search only_rules
  recover_marker-desk (some marker) = search (only_rules, fail_run-desk) depth 12

  recover_blob-desk : (name : String) → Only (own_desk w) (recover_blob w name)
  unfolding recover_blob
  recover_blob-desk name = search (storage_effects, recover_marker-desk) depth 12

  recover_blobs-desk : (names : List String) → Only (own_desk w) (recover_blobs w names)
  unfolding recover_blobs
  recover_blobs-desk [] = Only-pure 0
  recover_blobs-desk (name ∷ names) =
      Only-bind _ _ (recover_blob-desk name)
        (λ failed_one. Only-bind _ _ (recover_blobs-desk names) (λ n. Only-pure _))

  pub recover-desk : Only (own_desk w) (recover_dead_runs w)
  unfolding recover_dead_runs
  recover-desk = search (only_rules, recover_blobs-desk) depth 12

  lift-Stays : {A : Type 0} (r : Reply A) → Stays (lift w r)
  unfolding lift
  lift-Stays (answer a) = Stays-pure a
  lift-Stays (failure e) = Stays-raise e

  fail_run-Stays : (d : Fields) (job : SimpleJob) → Stays (fail_run w d job)
  unfolding fail_run
  fail_run-Stays d job =
      search
        (
          stays_rules, read_progress-Stays, lift-Stays, fail_progress-Stays, write_status-Stays,
          delete_keepalive-Stays, clear-Stays,
        )
        depth 20

  marker-Stays : (o : Option Fields) → Stays (recover_marker w o)
  unfolding recover_marker
  marker-Stays none = search stays_rules
  marker-Stays (some d) = search (stays_rules, fail_run-Stays) depth 12

  blob-Stays : (name : String) → Stays (recover_blob w name)
  unfolding recover_blob
  blob-Stays name = search (stays_rules, read_dict-Stays, marker-Stays) depth 12

  blobs-Stays : (names : List String) → Stays (recover_blobs w names)
  unfolding recover_blobs
  blobs-Stays [] = search stays_rules
  blobs-Stays (name ∷ names) =
      Stays-bind _ _ (blob-Stays name) (λ _. Stays-bind _ _ (blobs-Stays names) (λ _. Stays-pure _))

  -- it may raise, and never ends the process
  pub recover-Stays : Stays (recover_dead_runs w)
  unfolding recover_dead_runs
  recover-Stays = search (stays_rules, blobs-Stays) depth 12
