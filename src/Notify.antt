-- ===== src/Notify.antt =====
-- Other queues and services: `_forward_to_poison_queue`, `_enqueue_brief_gen`,
-- `_trigger_brief_gen_http`, and `drain_requested` of drain.py.
pub mod Effects
use parser_os_worker.Base.{
  Bool, Option, String, [], false, if◌then◌else◌, is_empty, leb, ltb, none, some, suc, true, zero,
  ℕ, ◌&&◌, ◌∷◌,
}
use parser_os_worker.Json.{Fields, Json, bool, end, fields, merge, nat, num, obj, str}
use parser_os_worker.Keepalive.{ensure_queue}
use parser_os_worker.Message.{exc}
use parser_os_worker.Service.{Host, SimpleJob, create_queue, exists, post, send_message}
use parser_os_worker.Service.Action.{
  Action, ask, attempt, catch, gets, iso_now, pure, raise, ◌>>=◌, ◌>>◌,
}

module _ (w : Host) where
  poison_document : String → String → Option SimpleJob → ℕ → String → String → Fields
  poison_document original reason job dequeue_count source now =
      merge
        (fields (
          ("reason", str reason)
          ∷ ("dequeue_count", num (nat dequeue_count))
          ∷ ("source_queue", str source)
          ∷ ("forwarded_at", str now)
          ∷ ("original", str original)
          ∷ []))
        (elim job [
          | none ↦ end
          | some j ↦ fields (("deal_id", str j.deal_id) ∷ ("compile_id", str j.compile_id) ∷ [])
        ])

  -- _forward_to_poison_queue
  unfoldable pub forward_to_poison :
      String → String → Option SimpleJob → ℕ → String → Action (Unit {0})
  unfolding poison_document
  forward_to_poison original reason job dequeue_count source =
      if is_empty w.poison_queue_name
      then pure tt
      else attempt (do
        ensure_queue w w.poison_queue_name
        now ← iso_now w
        ask w (
            send_message w.poison_queue_name
              (obj (poison_document original reason job dequeue_count source now))))

  pub brief_gen_document : SimpleJob → Json
  brief_gen_document job = obj (
      fields (
        ("dealId", str job.deal_id)
        ∷ ("compileId", str job.compile_id)
        ∷ ("envelopeReady", bool true)
        ∷ []))

  -- _enqueue_brief_gen: a missing queue is created, and the send made once more
  unfoldable pub enqueue_brief_gen : SimpleJob → Action (Unit {0})
  unfolding brief_gen_document
  enqueue_brief_gen job =
      let send = ask w (send_message w.brief_gen_queue_name (brief_gen_document job)) in
      if is_empty w.brief_gen_queue_name
      then pure tt
      else catch send (λ _. do attempt (ask w (create_queue w.brief_gen_queue_name)); send)

  trigger_document : SimpleJob → String → Json
  trigger_document job run_id = obj (
      fields
        (("deal_id", str job.deal_id) ∷ ("run_id", str run_id) ∷ ("mirror_latest", bool true) ∷ []))

  -- one attempt: whether the answer was a 2xx
  post_once : SimpleJob → String → Action Bool
  unfolding trigger_document
  post_once job run_id =
      catch
        (do
          status ← ask w (post w.brief_gen_url (trigger_document job run_id))
          pure (leb 200 status && ltb status 300))
        (λ _. pure false)

  -- the loop over the attempts that are left
  pub post_attempts : ℕ → SimpleJob → String → Action (Unit {0})
  unfolding post_once
  post_attempts zero job run_id =
      raise (exc "RuntimeError" "Brief-gen HTTP trigger failed after retries")
  post_attempts (suc n) job run_id = do
    done ← post_once job run_id
    if done then pure tt else post_attempts n job run_id

  -- _trigger_brief_gen_http
  unfoldable pub trigger_brief_gen_http : SimpleJob → Action (Unit {0})
  unfolding post_attempts
  trigger_brief_gen_http job =
      if is_empty w.brief_gen_url
      then pure tt
      else do run_id ← gets (λ s. w.fresh_id s.log); post_attempts 3 job run_id

  -- drain_requested: it fails open
  unfoldable pub drain_requested : Action Bool
  drain_requested = catch (ask w (exists w.drain_sentinel_blob)) (λ _. pure false)
