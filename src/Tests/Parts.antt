-- ===== src/Tests/Parts.antt =====
-- The parts of the worker in these worlds.
pub mod Documents
use parser_os_worker.Base.{
  Bool, Option, String, [], ap, false, none, refl, some, sym, true, ◌∙◌, ◌∷◌, ◌≡◌, ◌⊎◌,
}
use parser_os_worker.Documents.{read_json}
use parser_os_worker.Heartbeat.{Stopper, Ticker, running, wanting}
use parser_os_worker.Json.{Fields, Json, end, fields, get, null, obj, str}
use parser_os_worker.Message.{JobMessage}
use parser_os_worker.Paths.{latest_path, progress_blob_path}
use parser_os_worker.Progress.{fail_progress_if_ours, is_ours}
use parser_os_worker.Progress.Ownership.{
  after_upload, blind_upload, fail_progress-absent, fail_progress-foreign, fail_progress-ours,
  failing_upload, missed_state, seen_state,
}
use parser_os_worker.Recovery.{is_dead_marker, recover_dead_runs}
use parser_os_worker.Recovery.Spares.{recover_dead_runs-spares, writing}
use parser_os_worker.Release.{on_signal, release_inflight}
use parser_os_worker.Release.Exits.{on_signal-exits, release_inflight-once}
use parser_os_worker.Service.{
  Answer, Blob, Call, Host, Reply, SimpleJob, answer, download, failure, list_blobs,
}
use parser_os_worker.Service.Action.{
  Proc, ask, catch, exited, iso_now, no_inflight, ok, raise, ◌>>=◌,
}
use parser_os_worker.Service.Only.{count}
use parser_os_worker.SowDraft.{is_deal_id, run_sow_draft, sow_draft_status, sow_status_path}
use parser_os_worker.SowDraft.Final.{last_state, run_sow_draft-states}
use parser_os_worker.Tests.{idle_process, sample_message, sample_replies, sample_world}
use parser_os_worker.Watchdog.{fits_in, memory_guard_run}
use parser_os_worker.Watchdog.Exits.{memory_guard_run-exits}

abbrev alone : Host
alone = sample_world [] none

abbrev simple : SimpleJob
simple = record { deal_id = "d1"; compile_id = "c1" }

abbrev job : JobMessage
job = record {
  job = record { deal_id = "d1"; compile_id = "c1" };
  manifest_blob_url = "deals/d1/manifest.json";
  domain_pack = null;
  compile_options = obj end;
  force = false;
  triggered_by = none;
  trigger_kind = none;
}

-- a world with one document
abbrev with : String → Json → Host
with path j = sample_world ((path, j) ∷ []) none

abbrev blob : Json → Blob
blob j = record { doc = some j; etag = some "0x1" }

-- the progress of this compile, and of another
abbrev progress_of : String → Fields
progress_of compile_id = fields (("compile_id", str compile_id) ∷ ("status", str "running") ∷ [])

abbrev running_world : String → Host
running_world compile_id =
    with "deals/d1/orbitbrief/latest/compile-progress.json" (obj (progress_of compile_id))

fail_progress-foreign_example :
    fail_progress_if_ours (running_world "c2") simple "timeout" "slow" "failed" idle_process ≡ (
      ok false,
      seen_state
          (running_world "c2")
          simple
          "timeout"
          "slow"
          "failed"
          (blob (obj (progress_of "c2")))
          (progress_of "c2")
          idle_process,
    )
unfolding is_ours progress_blob_path latest_path get
fail_progress-foreign_example =
    fail_progress-foreign (running_world "c2") simple "timeout" "slow" "failed"
      (blob (obj (progress_of "c2"))) (progress_of "c2") idle_process refl refl refl

abbrev upload_of : Call
upload_of =
    failing_upload (running_world "c1") simple "timeout" "slow" "failed"
      (blob (obj (progress_of "c1"))) (progress_of "c1") idle_process

abbrev seen_ours : Proc
seen_ours =
    seen_state (running_world "c1") simple "timeout" "slow" "failed" (blob (obj (progress_of "c1")))
      (progress_of "c1") idle_process

fail_progress-ours_example :
    fail_progress_if_ours (running_world "c1") simple "timeout" "slow" "failed" idle_process
    ≡ after_upload upload_of seen_ours ((running_world "c1").reply seen_ours.log upload_of)
unfolding is_ours progress_blob_path latest_path get
fail_progress-ours_example =
    fail_progress-ours (running_world "c1") simple "timeout" "slow" "failed"
      (blob (obj (progress_of "c1"))) (progress_of "c1") idle_process refl refl refl

abbrev is_wanting : Ticker → Bool
is_wanting wanting = true
is_wanting _ = false

abbrev is_running : Stopper → Bool
is_running running = true
is_running _ = false

-- a process that holds a message
abbrev holding_message : Proc
holding_message = record idle_process {
  inflight = record no_inflight {
    held = some ("parser-jobs", sample_message 1);
    job = some simple;
  };
}

release_inflight-once_example :
    ((release_inflight alone "SIGTERM" holding_message).1.inflight ≡ no_inflight)
    × ((release_inflight alone "atexit" (release_inflight alone "SIGTERM" holding_message).1).1.log
        ≡ (release_inflight alone "SIGTERM" holding_message).1.log)
release_inflight-once_example = release_inflight-once alone "SIGTERM" "atexit" holding_message

on_signal-exits_example : (on_signal alone "SIGTERM" holding_message).0 ≡ exited 143
on_signal-exits_example = on_signal-exits alone "SIGTERM" holding_message

memory_guard_run-exits_example :
    (memory_guard_run alone simple 1000 900 0 0 (100 ∷ 950 ∷ []) idle_process).0 ≡ exited 75
unfolding fits_in
memory_guard_run-exits_example =
    memory_guard_run-exits alone simple 1000 900 0 0 (100 ∷ 950 ∷ []) idle_process

-- a request to stop another compile
abbrev asked : Fields
asked = fields (("compile_id", str "c2") ∷ [])

abbrev asked_world : Host
asked_world = with "deals/d1/orbitbrief/latest/compile-cancel.json" (obj asked)

-- a world with a run of another replica
abbrev foreign : Fields
foreign = fields (
    ("replica", str "replica-2")
    ∷ ("boot_id", str "boot-1")
    ∷ ("compile_id", str "c9")
    ∷ ("deal_id", str "d9")
    ∷ [])

abbrev foreign_replies : (c : Call) → Reply (Answer c)
foreign_replies (download p) = answer (blob (obj foreign))
foreign_replies (list_blobs p) = answer ("_active-compiles/c9.json" ∷ [])
foreign_replies c = sample_replies [] none c

abbrev busy : Host
busy = record alone { reply = λ h. foreign_replies }

abbrev dead_document : Option Json → Bool
dead_document (some (obj d)) = is_dead_marker busy d
dead_document _ = false

abbrev dead_reply : Reply Blob → Bool
dead_reply (answer b) = dead_document b.doc
dead_reply (failure e) = false

foreign_lives : is_dead_marker busy foreign ≡ false
unfolding is_dead_marker get
foreign_lives = refl

recover_dead_runs-spares_example :
    ((recover_dead_runs busy idle_process).0 ≡ ok 0)
    × (count writing (recover_dead_runs busy idle_process).1.log ≡ 0)
recover_dead_runs-spares_example =
    recover_dead_runs-spares busy idle_process
      (λ h name b d e f. sym (ap dead_document f) ∙ sym (ap dead_reply e) ∙ foreign_lives)

fail_progress-absent_example :
    fail_progress_if_ours alone simple "timeout" "slow" "failed" idle_process
    ≡ after_upload
        (blind_upload alone simple "timeout" "slow" "failed" idle_process)
        (missed_state alone simple "timeout" "slow" "failed" idle_process)
        (answer tt)
fail_progress-absent_example =
    fail_progress-absent alone simple "timeout" "slow" "failed"
      (record { kind = "ResourceNotFoundError"; message = "no such thing" }) idle_process refl refl

abbrev deal_id : String
deal_id = "00000000-0000-0000-0000-000000000000"

run_sow_draft-states_example :
    (last_state (sow_status_path alone deal_id) (run_sow_draft alone deal_id end idle_process).1.log
      ≡ some (str "done"))
    ⊎ (last_state
          (sow_status_path alone deal_id)
          (run_sow_draft alone deal_id end idle_process).1.log
        ≡ some (str "failed"))
unfolding run_sow_draft sow_draft_status is_deal_id ◌>>=◌ ask catch iso_now read_json raise
run_sow_draft-states_example =
    run_sow_draft-states alone deal_id end idle_process
      (run_sow_draft alone deal_id end idle_process).1 refl refl
