-- ===== src/Main.antt =====
-- `main`: one message, from the gates before the queues to the exit code. It is cut along its early
-- returns: `main` polls, `handle_message` decodes, `dispatch` refuses, and `run_job` (in Work) works.
pub mod Effects
pub mod Acks
pub mod Settled
pub mod Gates
pub mod Leftovers
pub mod Polls
pub mod Stays
pub mod Archives
use parser_os_worker.Base.{
  Bool, Option, String, [], any, get_or, if◌then◌else◌, lstrip, ltb, maybe, none, not, some,
  starts_with, str_eq, strip, suc, true, zero, ℕ, ◌&&◌, ◌-◌, ◌<>◌, ◌∷◌,
}
use parser_os_worker.Documents.{is_text}
use parser_os_worker.Json.{Fields, as_dict, end, fields, get, or_json, str, text_of}
use parser_os_worker.Json.Numbers.{show_nat}
use parser_os_worker.Keepalive.{safe_delete}
use parser_os_worker.Message.{JobMessage, from_raw}
use parser_os_worker.Notify.{drain_requested, forward_to_poison}
use parser_os_worker.Progress.{fail_progress_if_ours}
use parser_os_worker.Recovery.{recover_dead_runs}
use parser_os_worker.Service.{
  Content, Host, Message, SimpleJob, answer, bytes, failure, queue_depth, receive, text,
}
use parser_os_worker.Service.Action.{Action, ask, attempt, catch, gets, modify, pure, ◌>>=◌, ◌>>◌}
use parser_os_worker.SowDraft.{run_sow_draft}
use parser_os_worker.Status.{previous_attempt_cannot_succeed, write_status}
use parser_os_worker.Temp.{scrub_stale}
use parser_os_worker.Work.{
  clear_inflight, earlier_error, earlier_error_capital, earlier_reason, run_job, set_inflight,
}

module _ (w : Host) where
  -- giving up: the deal is told, the message is archived and deleted
  pub give_up : String → Message → SimpleJob → String → String → String → String → String → Action ℕ
  give_up queue msg job raw stage status_error progress_error reason = do
    write_status w job "failed" (fields (("stage", str stage) ∷ ("error", str status_error) ∷ []))
    fail_progress_if_ours w job stage progress_error "failed"
    forward_to_poison w raw reason (some job) msg.dequeue_count queue
    safe_delete w queue msg
    pure 2

  pub exhausted : String → Message → SimpleJob → String → Action ℕ
  exhausted queue msg job raw =
      give_up queue msg job raw "exhausted_retries"
        ("dequeue_count " <> show_nat msg.dequeue_count <> " > " <> show_nat w.max_dequeue_count)
        ("The parse failed "
          <> show_nat (msg.dequeue_count - 1)
          <> " times and was not retried again. Press Re-parse to try again.")
        "exhausted_retries"

  pub not_rerun : String → Message → SimpleJob → String → String → Action ℕ
  unfolding earlier_error earlier_error_capital earlier_reason
  not_rerun queue msg job raw stage =
      give_up queue msg job raw stage
        (earlier_error stage <> "; not re-run (dequeue_count " <> show_nat msg.dequeue_count <> ")")
        (earlier_error_capital stage <> ", so it was not run again. Press Re-parse to try again.")
        (earlier_reason stage)

  unfoldable pub earlier_attempt : Message → SimpleJob → Action (Option String)
  earlier_attempt msg job =
      if ltb 1 msg.dequeue_count then previous_attempt_cannot_succeed w job else pure none

  unfoldable pub is_skipped : SimpleJob → Bool
  is_skipped job = any (str_eq job.deal_id) w.skip_deal_ids

  unfoldable pub admit : String → Message → JobMessage → Action ℕ
  admit queue msg job =
      if is_skipped job.job then (do safe_delete w queue msg; pure 0) else run_job w queue msg job

  -- the refusals that come before any work
  unfoldable pub dispatch : String → Message → JobMessage → String → Action ℕ
  dispatch queue msg job raw =
      if ltb w.max_dequeue_count msg.dequeue_count then exhausted queue msg job.job raw else do
        earlier ← earlier_attempt msg job.job
        maybe earlier (admit queue msg job) (not_rerun queue msg job.job raw)

  pub log_depth : String → Action (Unit {0})
  log_depth queue = attempt (do ask w (queue_depth queue); pure tt)

  -- msg.content as a str; bytes that are not UTF-8 raise
  pub content_text : Content → Option String
  content_text (text s) = some s
  content_text (bytes decoded lenient) = decoded

  pub lenient_text : Content → String
  lenient_text (text s) = s
  lenient_text (bytes decoded lenient) = lenient

  abbrev loads_dict : String → Fields
  loads_dict s =
      if starts_with (lstrip s) "{"
      then get_or end (elim (w.loads s) [ none ↦ none | some j ↦ as_dict j ])
      else end

  abbrev unwrapped : String → Option String
  unwrapped s = if starts_with (lstrip s) "{" then some s else w.from_base64_strict (strip s)

  -- `_peek_job`; everything that is no dict reads as {}
  unfoldable pub peek : Content → Fields
  unfolding content_text
  peek c = elim (content_text c) [
    | none ↦ end
    | some s ↦ elim (unwrapped s) [ none ↦ end | some t ↦ loads_dict t ]
  ]

  pub decode : Content → Option (JobMessage × String)
  unfolding content_text
  decode c = elim (content_text c) [
    | none ↦ none
    | some s ↦ elim (from_raw w s) [ failure e ↦ none | answer job ↦ some (job, s) ]
  ]

  pub undecodable : String → Message → Action ℕ
  unfolding lenient_text
  undecodable queue msg = do
    forward_to_poison w (lenient_text msg.content) "decode_error" none msg.dequeue_count queue
    safe_delete w queue msg
    pure 2

  pub handle_decoded : String → Message → Option (JobMessage × String) → Action ℕ
  unfolding undecodable log_depth
  handle_decoded queue msg none = undecodable queue msg
  handle_decoded queue msg (some (job, raw)) = do
    log_depth w.priority_queue_name
    log_depth w.queue_name
    dispatch queue msg job raw

  pub sow_job : String → Message → Fields → Action ℕ
  sow_job queue msg d = do
    run_sow_draft w (text_of w.repr (or_json (get "deal_id" d) (str ""))) d
    safe_delete w queue msg
    clear_inflight w
    pure 0

  -- from the message to the exit code
  unfoldable pub handle_message : String → Message → Action ℕ
  unfolding set_inflight sow_job decode handle_decoded
  handle_message queue msg = do
    set_inflight w (λ i. record i { held = some (queue, msg) })
    let d = peek msg.content
    if is_text "sow_draft" (get "kind" d)
        then sow_job queue msg d
        else handle_decoded queue msg (decode msg.content)

  -- receive_message, whose message object carries the pop receipt
  pub receive_from : String → Action (Option (String × Message))
  receive_from queue = do
    found ← ask w (receive queue)
    maybe found (pure none)
        λ (msg, receipt). do modify (λ s. record s { receipt = receipt }); pure (some (queue, msg))

  -- the priority queue first; the normal one if it is empty or cannot be read
  unfoldable pub poll : Action (Option (String × Message))
  unfolding receive_from
  poll = do
    urgent ← catch (receive_from w.priority_queue_name) (λ _. pure none)
    maybe urgent (receive_from w.queue_name) (λ m. pure (some m))

  -- once in a process
  pub recover_once : Action (Unit {0})
  recover_once = do
    done ← gets (λ s. s.recovery_done)
    if done
        then pure tt
        else do modify (λ s. record s { recovery_done = true }); recover_dead_runs w; pure tt

  pub take_one : Action ℕ
  take_one = do found ← poll; maybe found (pure 0) λ (queue, msg). handle_message queue msg

  unfoldable pub main : Action ℕ
  unfolding recover_once take_one
  main = do
    scrub_stale w
    if w.defer_to_warm && not w.worker_loop
        then pure 0
        else do recover_once; draining ← drain_requested w; if draining then pure 0 else take_one

  -- WORKER_LOOP: rounds of `main`, between which it sleeps; an exception is logged
  pub worker_loop : ℕ → Action (Unit {0})
  worker_loop zero = pure tt
  worker_loop (suc n) = do attempt (do main; pure tt); worker_loop n
