-- ===== src/Keepalive/Effects.antt =====
-- The keepalive never fails a compile, and touches no queue but its own.
use parser_os_worker.Base.{Bool, String, eq_refl, str_eq, true, ◌≡◌}
use parser_os_worker.Json.{Fields, Json}
use parser_os_worker.Keepalive.{
  delete_keepalive, delete_with, ensure_queue, safe_delete, send_keepalive_message,
}
use parser_os_worker.Service.{Call, Host, Message, SimpleJob}
use parser_os_worker.Service.Calls.{is_desk}
use parser_os_worker.Service.Only.{Only}
use parser_os_worker.Service.Only.Rules.{only_rules}
use parser_os_worker.Service.Returns.{Returns, Stays, Stays-of_Returns}
use parser_os_worker.Service.Returns.Rules.{returns_rules, stays_rules}

module _ (w : Host) where
  abbrev pub own_desk : Call → Bool
  own_desk = is_desk w.inflight_queue_name

  own_queue : str_eq w.inflight_queue_name w.inflight_queue_name ≡ true
  own_queue = eq_refl w.inflight_queue_name

  pub ensure_queue-desk : (q : String) → Only own_desk (ensure_queue w q)
  unfolding ensure_queue
  ensure_queue-desk q = search only_rules depth 12

  pub send_keepalive-desk : (job : SimpleJob) → Only own_desk (send_keepalive_message w job)
  unfolding send_keepalive_message
  send_keepalive-desk job = search (only_rules, ensure_queue-desk) depth 9

  delete_with-desk : (d : Fields) → Only own_desk (delete_with w d)
  unfolding delete_with
  delete_with-desk d = search (only_rules, own_queue) depth 12

  pub delete_keepalive-desk : (k : Json) (b : Bool) → Only own_desk (delete_keepalive w k b)
  unfolding delete_keepalive
  delete_keepalive-desk k b = search (only_rules, delete_with-desk) depth 12

  pub ensure_queue-Stays : (q : String) → Stays (ensure_queue w q)
  unfolding ensure_queue
  ensure_queue-Stays q = search stays_rules depth 12

  pub send_keepalive-Returns : (job : SimpleJob) → Returns (send_keepalive_message w job)
  unfolding send_keepalive_message
  send_keepalive-Returns job = search (returns_rules, ensure_queue-Stays) depth 9

  delete_with-Returns : (d : Fields) → Returns (delete_with w d)
  unfolding delete_with
  delete_with-Returns d = search returns_rules depth 12

  pub delete_keepalive-Returns : (k : Json) (b : Bool) → Returns (delete_keepalive w k b)
  unfolding delete_keepalive
  delete_keepalive-Returns k b = search (returns_rules, delete_with-Returns) depth 12

  pub safe_delete-Stays : (q : String) (msg : Message) → Stays (safe_delete w q msg)
  unfolding safe_delete
  safe_delete-Stays q msg = search stays_rules depth 12

  pub delete_keepalive-Stays : (k : Json) (b : Bool) → Stays (delete_keepalive w k b)
  delete_keepalive-Stays k b = Stays-of_Returns _ (delete_keepalive-Returns k b)

  pub send_keepalive-Stays : (job : SimpleJob) → Stays (send_keepalive_message w job)
  send_keepalive-Stays job = Stays-of_Returns _ (send_keepalive-Returns job)
