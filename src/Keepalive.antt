-- ===== src/Keepalive.antt =====
-- The visible message that keeps a replica up while a compile runs: `_send_keepalive`,
-- `_delete_keepalive`, and the benign errors of a delete.
pub mod Effects
use parser_os_worker.Base.{
  Bool, Option, String, [], contains_codes, contains_text, if◌then◌else◌, is_empty, lower, maybe,
  none, not, some, str_eq, true, ◌&&◌, ◌||◌, ◌∷◌,
}
use parser_os_worker.Json.{
  Fields, Json, as_dict, fields, get, null, obj, optional, str, text_of, truthy,
}
use parser_os_worker.Service.{
  Exc, Host, Message, Sent, SimpleJob, create_queue, delete_message, send_keepalive,
}
use parser_os_worker.Service.Action.{
  Action, ask, attempt, catch, gets, modify, pure, raise, ◌>>=◌, ◌>>◌,
}

-- _is_benign_queue_delete_error
unfoldable pub is_benign_delete_error : Exc → Bool
is_benign_delete_error e =
    contains_text e.kind "ResourceNotFound"
    || contains_text e.kind "MessageNotFound"
    || contains_codes (lower e.message) "messagenotfound"
    || contains_codes (lower e.message) "specified message does not exist"

abbrev pub text_or_none : (Json → String) → Json → Option String
text_or_none repr null = none
text_or_none repr j = some (text_of repr j)

module _ (w : Host) where
  -- _safe_delete_queue_message
  unfoldable pub safe_delete : String → Message → Action (Unit {0})
  safe_delete queue msg =
      catch (do receipt ← gets (λ s. s.receipt); ask w (delete_message queue msg.id receipt))
        (λ e. if is_benign_delete_error e then pure tt else raise e)

  -- create_queue, where ResourceExistsError is fine
  unfoldable pub ensure_queue : String → Action (Unit {0})
  ensure_queue queue =
      catch (ask w (create_queue queue))
        (λ e. if str_eq e.kind "ResourceExistsError" then pure tt else raise e)

  keepalive_of : Sent → Json
  keepalive_of sent =
      obj (fields (("id", optional sent.id) ∷ ("pop_receipt", optional sent.pop_receipt) ∷ []))

  keepalive_body : SimpleJob → Json
  keepalive_body job = obj (
      fields (
        ("compile_id", str job.compile_id)
        ∷ ("deal_id", str job.deal_id)
        ∷ ("replica", str w.replica)
        ∷ []))

  -- _send_keepalive; null is None
  unfoldable pub send_keepalive_message : SimpleJob → Action Json
  unfolding ensure_queue keepalive_of keepalive_body
  send_keepalive_message job =
      if is_empty w.inflight_queue_name
      then pure null
      else catch
          (do
            ensure_queue w.inflight_queue_name
            sent ← ask w (send_keepalive w.inflight_queue_name (keepalive_body job) w.lease_max_sec)
            modify (λ s. record s { keepalive_client = true })
            pure (keepalive_of sent))
          (λ _. pure null)

  unfoldable pub delete_with : Fields → Action (Unit {0})
  delete_with d = attempt (
      ask w (
        delete_message w.inflight_queue_name (text_of w.repr (get "id" d))
          (text_or_none w.repr (get "pop_receipt" d))))

  -- _delete_keepalive; the flag says that a queue service was passed
  unfoldable pub delete_keepalive : Json → Bool → Action (Unit {0})
  unfolding delete_with
  delete_keepalive keepalive with_service = maybe (as_dict keepalive) (pure tt) λ d.
      if truthy (get "id" d)
      then (do
        client ← gets (λ s. s.keepalive_client)
        if client || (with_service && not (is_empty w.inflight_queue_name))
            then delete_with d
            else pure tt)
      else pure tt
