-- ===== src/Main/Effects.antt =====
-- What the parts of `main` touch.

use parser_os_worker.Active.Effects.{clear-storage, mark-storage}
use parser_os_worker.Base.{Bool, String, refl}
use parser_os_worker.Budget.{document_length}
use parser_os_worker.Compile.Effects.{do_compile-errand, download_manifest-desk, errand}
use parser_os_worker.Dedup.Effects.{unchanged-storage}
use parser_os_worker.Json.{Json}
use parser_os_worker.Keepalive.Effects.{delete_keepalive-desk, own_desk, send_keepalive-desk}
use parser_os_worker.Main.{earlier_attempt, log_depth, recover_once}
use parser_os_worker.Message.{JobMessage}
use parser_os_worker.Notify.Effects.{drain-storage, enqueue-desk, forward-desk, trigger-desk}
use parser_os_worker.Progress.Effects.{fail_progress-storage}
use parser_os_worker.Recovery.{lift}
use parser_os_worker.Recovery.Effects.{recover-desk}
use parser_os_worker.Service.{Call, Host, Message, Reply, SimpleJob, answer, failure}
use parser_os_worker.Service.Action.{Inflight}
use parser_os_worker.Service.Calls.{desk_of_storage, errand_of_desk}
use parser_os_worker.Service.Only.{
  Only, Only-bind, Only-finally, Only-gets, Only-if, Only-modify, Only-pure, Only-raise,
}
use parser_os_worker.Service.Only.Rules.{only_rules}
use parser_os_worker.Service.Returns.{Returns, Returns-modify}
use parser_os_worker.Service.Returns.Rules.{returns_rules}
use parser_os_worker.Status.Effects.{previous-storage, read_dict-storage, write_status-storage}
use parser_os_worker.Work.{
  cleanup, clear_inflight, guarded_compile, is_redundant, retrain, set_inflight,
}

module _ (w : Host) where
  abbrev pub desk : Call → Bool
  desk = own_desk w

  pub ruleset desk_rules = (
    only_rules, desk_of_storage, read_dict-storage, write_status-storage, fail_progress-storage,
    mark-storage, clear-storage, previous-storage, unchanged-storage, drain-storage,
    delete_keepalive-desk, send_keepalive-desk, forward-desk, enqueue-desk, trigger-desk,
    download_manifest-desk, recover-desk,
  )

  pub set_inflight-desk : (f : Inflight → Inflight) → Only desk (set_inflight w f)
  unfolding set_inflight
  set_inflight-desk f = Only-modify _ (λ s. refl)

  pub clear_inflight-desk : Only desk (clear_inflight w)
  unfolding clear_inflight
  clear_inflight-desk = Only-modify _ (λ s. refl)

  pub lift-desk : {A : Type 0} (r : Reply A) → Only desk (lift w r)
  unfolding lift
  lift-desk (answer a) = Only-pure a
  lift-desk (failure e) = Only-raise e

  pub is_redundant-desk :
      (job : JobMessage) (manifest : Json) → Only desk (is_redundant w job manifest)
  unfolding is_redundant
  is_redundant-desk job manifest = search desk_rules depth 8

  cleanup-desk : (job : SimpleJob) → Only desk (cleanup w job)
  unfolding cleanup
  cleanup-desk job = search (desk_rules, set_inflight-desk) depth 20

  pub guarded-errand :
      (job : JobMessage) (manifest : Json) → Only (errand w) (guarded_compile w job manifest)
  unfolding guarded_compile
  guarded-errand job manifest = Only-bind _ _ (errand_of_desk _ (set_inflight-desk _)) λ _.
      Only-bind _ _ (errand_of_desk _ (lift-desk (document_length manifest))) λ _.
        Only-bind _ _ (errand_of_desk _ (send_keepalive-desk w job.job)) λ keepalive.
          Only-bind _ _ (errand_of_desk _ (set_inflight-desk _)) λ _.
            Only-finally _ _ (do_compile-errand w job manifest)
              (errand_of_desk _ (cleanup-desk job.job))

  pub log_depth-desk : (q : String) → Only desk (log_depth w q)
  unfolding log_depth
  log_depth-desk q = search only_rules depth 9

  pub earlier-desk : (msg : Message) (job : SimpleJob) → Only desk (earlier_attempt w msg job)
  unfolding earlier_attempt
  earlier-desk msg job = search desk_rules depth 8

  pub recover_once-desk : Only desk (recover_once w)
  unfolding recover_once
  recover_once-desk = Only-bind _ _ (Only-gets _) λ done. Only-if done _ _ (Only-pure tt) (
      Only-bind _ _ (Only-modify _ (λ s. refl))
        λ _. Only-bind _ _ (recover-desk w) (λ _. Only-pure tt))

  pub retrain-errand : (job : SimpleJob) → Only (errand w) (retrain w job)
  unfolding retrain
  retrain-errand job = search only_rules depth 12

  pub retrain-Returns : (job : SimpleJob) → Returns (retrain w job)
  unfolding retrain
  retrain-Returns job = search returns_rules depth 12

  pub clear_inflight-Returns : Returns (clear_inflight w)
  unfolding clear_inflight
  clear_inflight-Returns = Returns-modify _
