-- ===== src/Notify/Effects.antt =====
-- What the messages to other queues touch, and that archiving is best effort.

use parser_os_worker.Base.{Option, String, suc, zero, ℕ}
use parser_os_worker.Keepalive.Effects.{ensure_queue-Stays, ensure_queue-desk, own_desk}
use parser_os_worker.Notify.{
  drain_requested, enqueue_brief_gen, forward_to_poison, post_attempts, post_once,
  trigger_brief_gen_http,
}
use parser_os_worker.Service.{Host, SimpleJob}
use parser_os_worker.Service.Calls.{is_storage}
use parser_os_worker.Service.Only.{Only, Only-bind, Only-if, Only-pure}
use parser_os_worker.Service.Only.Rules.{only_rules}
use parser_os_worker.Service.Returns.{
  Returns, Stays, Stays-bind, Stays-if, Stays-of_Returns, Stays-pure,
}
use parser_os_worker.Service.Returns.Rules.{returns_rules, stays_rules}

module _ (w : Host) where
  pub forward-desk :
      (raw reason : String) (job : Option SimpleJob) (n : ℕ) (source : String)
      → Only (own_desk w) (forward_to_poison w raw reason job n source)
  unfolding forward_to_poison
  forward-desk raw reason job n source = search (only_rules, ensure_queue-desk) depth 12

  pub forward-Returns :
      (raw reason : String) (job : Option SimpleJob) (n : ℕ) (source : String)
      → Returns (forward_to_poison w raw reason job n source)
  unfolding forward_to_poison
  forward-Returns raw reason job n source = search (returns_rules, ensure_queue-Stays) depth 12

  pub enqueue-desk : (job : SimpleJob) → Only (own_desk w) (enqueue_brief_gen w job)
  unfolding enqueue_brief_gen
  enqueue-desk job = search only_rules depth 12

  pub enqueue-Stays : (job : SimpleJob) → Stays (enqueue_brief_gen w job)
  unfolding enqueue_brief_gen
  enqueue-Stays job = search stays_rules depth 12

  post_once-desk : (job : SimpleJob) (id : String) → Only (own_desk w) (post_once w job id)
  unfolding post_once
  post_once-desk job id = search only_rules depth 12

  post_once-Stays : (job : SimpleJob) (id : String) → Stays (post_once w job id)
  unfolding post_once
  post_once-Stays job id = search stays_rules depth 12

  post_attempts-desk :
      (n : ℕ) (job : SimpleJob) (id : String) → Only (own_desk w) (post_attempts w n job id)
  unfolding post_attempts
  post_attempts-desk zero job id = search only_rules depth 12
  post_attempts-desk (suc n) job id =
      Only-bind _ _ (post_once-desk job id)
        (λ done. Only-if done _ _ (Only-pure tt) (post_attempts-desk n job id))

  post_attempts-Stays : (n : ℕ) (job : SimpleJob) (id : String) → Stays (post_attempts w n job id)
  unfolding post_attempts
  post_attempts-Stays zero job id = search stays_rules depth 12
  post_attempts-Stays (suc n) job id =
      Stays-bind _ _ (post_once-Stays job id)
        (λ done. Stays-if done _ _ (Stays-pure tt) (post_attempts-Stays n job id))

  pub trigger-desk : (job : SimpleJob) → Only (own_desk w) (trigger_brief_gen_http w job)
  unfolding trigger_brief_gen_http
  trigger-desk job = search (only_rules, post_attempts-desk) depth 12

  pub trigger-Stays : (job : SimpleJob) → Stays (trigger_brief_gen_http w job)
  unfolding trigger_brief_gen_http
  trigger-Stays job = search (stays_rules, post_attempts-Stays) depth 12

  pub drain-storage : Only is_storage (drain_requested w)
  unfolding drain_requested
  drain-storage = search only_rules depth 12

  pub drain-Returns : Returns (drain_requested w)
  unfolding drain_requested
  drain-Returns = search returns_rules depth 12

  pub forward-Stays :
      (raw reason : String) (job : Option SimpleJob) (n : ℕ) (source : String)
      → Stays (forward_to_poison w raw reason job n source)
  forward-Stays raw reason job n source =
      Stays-of_Returns _ (forward-Returns raw reason job n source)
