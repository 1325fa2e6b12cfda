-- ===== src/Release/Effects.antt =====
-- A termination hands everything back whatever the services answer.

use parser_os_worker.Active.Effects.{clear-Returns}
use parser_os_worker.Base.{Option, String, none, some}
use parser_os_worker.Keepalive.Effects.{delete_keepalive-Returns}
use parser_os_worker.Release.{give_back, interrupt_job, release_held, release_inflight}
use parser_os_worker.Service.{Host, Message, SimpleJob}
use parser_os_worker.Service.Action.{Inflight}
use parser_os_worker.Service.Returns.{Returns}
use parser_os_worker.Service.Returns.Rules.{returns_rules}
use parser_os_worker.Status.Effects.{write_status-Returns}

module _ (w : Host) where
  give_back-Returns : (h : Option (String × Message)) → Returns (give_back w h)
  unfolding give_back
  give_back-Returns none = search returns_rules
  give_back-Returns (some (queue, msg)) = search returns_rules depth 12

  interrupt_job-Returns :
      (reason : String) (j : Option SimpleJob) → Returns (interrupt_job w reason j)
  unfolding interrupt_job
  interrupt_job-Returns reason none = search returns_rules
  interrupt_job-Returns reason (some job) =
      search (returns_rules, clear-Returns, write_status-Returns) depth 12

  release_held-Returns : (reason : String) (st : Inflight) → Returns (release_held w reason st)
  unfolding release_held
  release_held-Returns reason st =
      search (returns_rules, delete_keepalive-Returns, give_back-Returns, interrupt_job-Returns)
        depth 12

  pub release-Returns : (reason : String) → Returns (release_inflight w reason)
  unfolding release_inflight
  release-Returns reason = search (returns_rules, release_held-Returns) depth 12
