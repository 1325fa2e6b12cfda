-- ===== src/Release.antt =====
-- `_release_inflight` and the signal handler that `_install_termination_release` installs.
pub mod Effects
pub mod Exits
pub mod Calm
use parser_os_worker.Active.{clear_compile_active}
use parser_os_worker.Base.{Option, String, [], false, if◌then◌else◌, none, some, ◌<>◌, ◌∷◌}
use parser_os_worker.Json.{Fields, fields, null, obj, str}
use parser_os_worker.Keepalive.{delete_keepalive}
use parser_os_worker.Paths.{progress_blob_path}
use parser_os_worker.Service.{Host, Message, SimpleJob, document, update_message, upload}
use parser_os_worker.Service.Action.{
  Action, Inflight, ask, attempt, exit, gets, is_idle, iso_now, modify, no_inflight, pure, ◌>>=◌,
  ◌>>◌,
}
use parser_os_worker.Status.{write_status}

module _ (w : Host) where
  abbrev released : String → String
  released reason = "worker terminated (" <> reason <> "); message released for retry"

  interrupted_payload : SimpleJob → String → String → Fields
  interrupted_payload job reason now = fields (
      ("compile_id", str job.compile_id)
      ∷ ("deal_id", str job.deal_id)
      ∷ ("status", str "interrupted")
      ∷ ("current_stage", null)
      ∷ ("updated_at", str now)
      ∷ ("error", str (released reason))
      ∷ ("worker_sha", str w.worker_sha)
      ∷ ("parser_os_sha", str w.parser_os_sha)
      ∷ [])

  abbrev terminated_extra : String → Fields
  terminated_extra reason =
      fields (("stage", str "terminated") ∷ ("error", str (released reason)) ∷ [])

  -- the lease of the held message, given back at once
  give_back : Option (String × Message) → Action (Unit {0})
  give_back none = pure tt
  give_back (some (queue, msg)) =
      attempt
        (do receipt ← gets (λ s. s.receipt); ask w (update_message queue msg.id receipt 0); pure tt)

  interrupt_job : String → Option SimpleJob → Action (Unit {0})
  unfolding interrupted_payload
  interrupt_job reason none = pure tt
  interrupt_job reason (some job) = do
    clear_compile_active w job
    now ← iso_now w
    attempt (
        ask w (
          upload (progress_blob_path job.deal_id)
            (document (obj (interrupted_payload job reason now))) none))
    write_status w job "interrupted" (terminated_extra reason)

  release_held : String → Inflight → Action (Unit {0})
  unfolding give_back interrupt_job
  release_held reason st = do
    delete_keepalive w st.keepalive false
    give_back st.held
    interrupt_job reason (elim st.held [ none ↦ none | some h ↦ st.job ])

  -- _release_inflight: an empty _INFLIGHT is left alone
  pub release_inflight : String → Action (Unit {0})
  unfolding release_held
  release_inflight reason = do
    st ← gets (λ s. s.inflight)
    modify (λ s. record s { inflight = no_inflight })
    if is_idle st then pure tt else release_held reason st

  -- the handler of SIGTERM and SIGINT
  pub on_signal : String → Action (Unit {0})
  on_signal label = do release_inflight label; exit 143
