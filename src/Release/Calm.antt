-- ===== src/Release/Calm.antt =====
-- Actions that leave `_INFLIGHT` as it is.
use parser_os_worker.Active.{clear_compile_active}
use parser_os_worker.Base.{Bool, Option, String, ℕ, ◌≡◌}
use parser_os_worker.Json.{Fields, Json}
use parser_os_worker.Keepalive.{delete_keepalive, delete_with, safe_delete}
use parser_os_worker.Service.{
  Body, Call, Host, Message, SimpleJob, delete_blob, delete_message, download, download_from,
  update_message, upload,
}
use parser_os_worker.Service.Action.{Inflight, Proc, ask}
use parser_os_worker.Service.Keeps.{
  Keeps, Keeps-ask, Keeps-attempt, Keeps-bind, Keeps-catch, Keeps-exit, Keeps-gets, Keeps-if,
  Keeps-iso_now, Keeps-option, Keeps-pure, Keeps-raise,
}
use parser_os_worker.Status.{write_run_index, write_status}

abbrev pub Calm : Inflight → Proc → Type 0
Calm i s = s.inflight ≡ i

module _ (i : Inflight) (w : Host) where
  pub Calm-ask : (c : Call) → Keeps (Calm i) (ask w c)
  Calm-ask c = Keeps-ask w c (λ s p. p) (λ s p. p)

  pub Calm-upload :
      (path : String) (b : Body) (e : Option String) → Keeps (Calm i) (ask w (upload path b e))
  Calm-upload path b e = Calm-ask (upload path b e)

  pub Calm-download : (path : String) → Keeps (Calm i) (ask w (download path))
  Calm-download path = Calm-ask (download path)

  pub Calm-download_from : (c path : String) → Keeps (Calm i) (ask w (download_from c path))
  Calm-download_from c path = Calm-ask (download_from c path)

  pub Calm-delete_blob : (path : String) → Keeps (Calm i) (ask w (delete_blob path))
  Calm-delete_blob path = Calm-ask (delete_blob path)

  pub Calm-delete_message :
      (q m : String) (x : Option String) → Keeps (Calm i) (ask w (delete_message q m x))
  Calm-delete_message q m x = Calm-ask (delete_message q m x)

  pub Calm-update_message :
      (q m : String) (x : Option String) (v : ℕ) → Keeps (Calm i) (ask w (update_message q m x v))
  Calm-update_message q m x v = Calm-ask (update_message q m x v)

  pub ruleset calm_rules = (
    Calm-download, Calm-download_from, Keeps-pure, Keeps-raise, Keeps-exit, Keeps-gets, Keeps-if,
    Keeps-catch, Keeps-attempt, Keeps-iso_now, Keeps-bind, Keeps-option, Calm-upload,
    Calm-delete_blob, Calm-delete_message, Calm-update_message,
  )

  pub clear-Calm : (job : SimpleJob) → Keeps (Calm i) (clear_compile_active w job)
  unfolding clear_compile_active
  clear-Calm job = search calm_rules depth 12

  write_run_index-Calm : (payload : Fields) → Keeps (Calm i) (write_run_index w payload)
  unfolding write_run_index
  write_run_index-Calm payload = search calm_rules depth 12

  pub write_status-Calm :
      (job : SimpleJob) (status : String) (extra : Fields)
      → Keeps (Calm i) (write_status w job status extra)
  unfolding write_status
  write_status-Calm job status extra = search (calm_rules, write_run_index-Calm) depth 12

  pub safe_delete-Calm : (queue : String) (msg : Message) → Keeps (Calm i) (safe_delete w queue msg)
  unfolding safe_delete
  safe_delete-Calm queue msg = search calm_rules depth 12

  delete_with-Calm : (d : Fields) → Keeps (Calm i) (delete_with w d)
  unfolding delete_with
  delete_with-Calm d = search calm_rules depth 12

  pub delete_keepalive-Calm : (k : Json) (b : Bool) → Keeps (Calm i) (delete_keepalive w k b)
  unfolding delete_keepalive
  delete_keepalive-Calm k b = search (calm_rules, delete_with-Calm) depth 12
