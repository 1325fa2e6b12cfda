-- ===== src/Release/Exits.antt =====
-- A termination ends the process, and hands everything back once.

use parser_os_worker.Base.{Option, String, if◌then◌else◌, none, refl, some, ◌≡◌}
use parser_os_worker.Json.{truthy}
use parser_os_worker.Release.{give_back, interrupt_job, on_signal, release_held, release_inflight}
use parser_os_worker.Release.Calm.{
  Calm, calm_rules, clear-Calm, delete_keepalive-Calm, write_status-Calm,
}
use parser_os_worker.Release.Effects.{release-Returns}
use parser_os_worker.Service.{Host, Message, SimpleJob}
use parser_os_worker.Service.Action.{
  Inflight, Proc, exited, gets, is_idle, modify, no_inflight, pure, ◌>>=◌,
}
use parser_os_worker.Service.Exits.{Exits, exits_rules}
use parser_os_worker.Service.Keeps.{Keeps, Keeps-if, Keeps-pure}

module _ (w : Host) where
  signal-Exits : (label : String) → Exits 143 (on_signal w label)
  unfolding on_signal
  signal-Exits label = search (exits_rules, release-Returns) depth 12

  give_back-Calm : (i : Inflight) (h : Option (String × Message)) → Keeps (Calm i) (give_back w h)
  unfolding give_back
  give_back-Calm i none = search calm_rules
  give_back-Calm i (some (queue, msg)) = search calm_rules depth 12

  interrupt_job-Calm :
      (i : Inflight) (reason : String) (j : Option SimpleJob)
      → Keeps (Calm i) (interrupt_job w reason j)
  unfolding interrupt_job
  interrupt_job-Calm i reason none = search calm_rules
  interrupt_job-Calm i reason (some job) =
      search (calm_rules, clear-Calm, write_status-Calm) depth 12

  release_held-Calm :
      (i : Inflight) (reason : String) (st : Inflight) → Keeps (Calm i) (release_held w reason st)
  unfolding release_held
  release_held-Calm i reason st =
      search (calm_rules, delete_keepalive-Calm, give_back-Calm, interrupt_job-Calm) depth 12

  released_idle :
      (reason : String) (st : Inflight) (s : Proc)
      → s.inflight ≡ no_inflight
      → ((if is_idle st then pure tt else release_held w reason st) s).1.inflight ≡ no_inflight
  released_idle reason st s e =
      (Keeps-if (is_idle st) (pure tt) (release_held w reason st) (Keeps-pure tt)
          (release_held-Calm no_inflight reason st)).at
        s e

  release-empties :
      (reason : String) (s : Proc) → (release_inflight w reason s).1.inflight ≡ no_inflight
  unfolding release_inflight ◌>>=◌ gets modify
  release-empties reason s =
      released_idle reason s.inflight (record s { inflight = no_inflight }) refl

  release-idle :
      (reason : String) (s : Proc)
      → s.inflight ≡ no_inflight
      → (release_inflight w reason s).1.log ≡ s.log
  unfolding release_inflight ◌>>=◌ gets modify pure truthy
  release-idle reason s e = rw e refl

-- Whatever the services answer, and whatever is in flight: the handler of SIGTERM and SIGINT exits
-- with code 143.
pub on_signal-exits : (w : Host) (label : String) (s : Proc) → (on_signal w label s).0 ≡ exited 143
on_signal-exits w label s = (signal-Exits w label).at s

-- Whatever the services answer: `_INFLIGHT` is empty after a release, so a second one, by another
-- signal or at exit, calls nothing.
pub release_inflight-once :
    (w : Host) (reason again : String) (s : Proc)
    → ((release_inflight w reason s).1.inflight ≡ no_inflight)
      × ((release_inflight w again (release_inflight w reason s).1).1.log
          ≡ (release_inflight w reason s).1.log)
release_inflight-once w reason again s =
    let e = release-empties w reason s in
    (e, release-idle w again (release_inflight w reason s).1 e)
