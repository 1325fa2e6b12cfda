-- ===== src/Tests/Runs.antt =====
-- Runs of `main` in these worlds.
use parser_os_worker.Active.{clear_compile_active, mark_compile_active}
use parser_os_worker.Base.{
  [], arith, contains_codes, cut, false, lower, lstrip, none, not, refl, some, strip, true, ℕ, ◌&&◌,
  ◌<◌, ◌∷◌, ◌≡◌, ◌≢◌, ◌≤◌, ◌⊎◌,
}
use parser_os_worker.Budget.{document_length}
use parser_os_worker.Compile.{
  do_compile, envelope_path, upload_atoms, upload_envelope, upload_sheet_renders, upload_sidecars,
  write_compile_progress, write_fingerprint, write_reports,
}
use parser_os_worker.Compile.Order.{do_compile-done}
use parser_os_worker.Compile.Order.Silent.{reported_done, stored_envelope}
use parser_os_worker.Dedup.{
  content_hashes, join_lines, manifest_as_of, norm_as_of, sorted, unchanged_since_last_compile,
}
use parser_os_worker.Documents.{read_dict}
use parser_os_worker.Download.{blob_path_from_url, download_artifacts, download_manifest}
use parser_os_worker.Json.{
  Json, arr, as_dict, end, fields, find, get, merge, nil, null, obj, or_json, put, str, text_of,
  truthy,
}
use parser_os_worker.Keepalive.{delete_keepalive, safe_delete, send_keepalive_message}
use parser_os_worker.Main.{
  admit, dispatch, earlier_attempt, give_up, handle_message, is_skipped, main, peek, poll,
  worker_loop,
}
use parser_os_worker.Main.Acks.{main-raised, main-retried}
use parser_os_worker.Main.Archives.{archived, give_up-archives}
use parser_os_worker.Main.Gates.{dispatch-compiles}
use parser_os_worker.Main.Leftovers.{entered, finish-empties, run_job-redundant_leaves, with_job}
use parser_os_worker.Main.Polls.{after_urgent, main-polls, poll-order, recovered_state}
use parser_os_worker.Main.Settled.{handle_message-settled}
use parser_os_worker.Message.{JobMessage, from_raw}
use parser_os_worker.Notify.{drain_requested, enqueue_brief_gen, trigger_brief_gen_http}
use parser_os_worker.Paths.{
  active_index_path, idempotency_blob_path, latest_path, progress_blob_path, run_index_blob_path,
  status_blob_path,
}
use parser_os_worker.Recovery.{lift, recover_dead_runs}
use parser_os_worker.Service.{Host, answer, exists, failure, receive}
use parser_os_worker.Service.Action.{
  Proc, ask, attempt, catch, finally, gets, iso_now, modify, no_inflight, ok, pure, raise, ◌>>=◌,
}
use parser_os_worker.Service.Calls.{ack_tried, acked, compiled, sent_to}
use parser_os_worker.Service.Only.{count}
use parser_os_worker.Status.{
  is_terminal, previous_attempt_cannot_succeed, read_status, write_run_index, write_status,
}
use parser_os_worker.Temp.{assert_tmp_has_space, free_space, scrub_paths, scrub_stale}
use parser_os_worker.Tests.{idle_process, sample_message, sample_world}
use parser_os_worker.Work.{
  cleanup, clear_inflight, finish, guarded_compile, is_permanent, is_redundant, on_failure, run_job,
  work,
}

-- a world whose manifests are gone
abbrev lost : Host
lost = sample_world [] (some (sample_message 1))

main-retried_example : count (acked "parser-jobs") (main lost idle_process).1.log ≡ 0
unfolding main scrub_stale scrub_paths handle_message ◌>>=◌ recover_dead_runs catch ask
    drain_requested poll get peek lstrip as_dict from_raw strip truthy or_json attempt dispatch
    earlier_attempt admit is_skipped run_job write_status mark_compile_active work on_failure
    download_manifest is_permanent text_of is_terminal iso_now pure modify gets merge find put
    status_blob_path progress_blob_path latest_path active_index_path lower contains_codes cut
    write_run_index run_index_blob_path blob_path_from_url
main-retried_example =
    main-retried lost "parser-jobs" idle_process (main lost idle_process).1 refl refl

-- a world with a manifest
abbrev kept : Host
kept =
    sample_world (("d1/manifest.json", obj (fields (("artifacts", arr nil) ∷ []))) ∷ [])
      (some (sample_message 2))

abbrev job : JobMessage
job = record {
  job = record { deal_id = "d1"; compile_id = "c1" };
  manifest_blob_url = "deals/d1/manifest.json";
  domain_pack = null;
  compile_options = obj end;
  force = false;
  triggered_by = none;
  trigger_kind = none;
}

-- a world in which storage and queues are down
abbrev down : Host
down = record lost {
  reply = λ h c. failure (record { kind = "ServiceRequestError"; message = "down" });
}

main-raised_example : count (acked "parser-jobs") (main down idle_process).1.log ≡ 0
unfolding main scrub_stale scrub_paths ◌>>=◌ recover_dead_runs catch ask drain_requested poll pure
    modify gets
main-raised_example =
    main-raised down "parser-jobs" idle_process (main down idle_process).1
      (record { kind = "ServiceRequestError"; message = "down" }) refl refl

abbrev one : ℕ
one = 1

handle_message-settled_example :
    (one ≡ 1)
    ⊎ (count (ack_tried "parser-jobs") idle_process.log
        < count
            (ack_tried "parser-jobs")
            (handle_message lost "parser-jobs" (sample_message 1) idle_process).1.log)
unfolding handle_message ◌>>=◌ recover_dead_runs catch ask drain_requested poll get peek lstrip
    as_dict from_raw strip truthy or_json attempt dispatch earlier_attempt admit is_skipped run_job
    write_status mark_compile_active work on_failure download_manifest is_permanent text_of
    is_terminal iso_now pure modify gets merge find put status_blob_path progress_blob_path
    latest_path active_index_path lower contains_codes cut write_run_index run_index_blob_path
    blob_path_from_url
handle_message-settled_example =
    handle_message-settled lost "parser-jobs" (sample_message 1) idle_process
      (handle_message lost "parser-jobs" (sample_message 1) idle_process).1 one refl

main-polls_example :
    ((lost.defer_to_warm && not lost.worker_loop) ≡ false)
    × (lost.reply (recovered_state lost idle_process).log (exists lost.drain_sentinel_blob)
        ≢ answer true)
unfolding main scrub_stale scrub_paths handle_message ◌>>=◌ recover_dead_runs catch ask
    drain_requested poll get peek lstrip as_dict from_raw strip truthy or_json attempt dispatch
    earlier_attempt admit is_skipped run_job write_status mark_compile_active work on_failure
    download_manifest is_permanent text_of is_terminal iso_now pure modify gets merge find put
    status_blob_path progress_blob_path latest_path active_index_path lower contains_codes cut
    write_run_index run_index_blob_path blob_path_from_url
main-polls_example = main-polls lost idle_process (λ e. ground arith)

kept-compiled :
    count compiled (dispatch kept "parser-jobs" (sample_message 2) job "" idle_process).1.log ≡ 1
unfolding do_compile scrub_stale scrub_paths assert_tmp_has_space free_space cleanup finish ◌>>=◌
    recover_dead_runs catch ask drain_requested poll get peek lstrip as_dict from_raw strip truthy
    or_json attempt dispatch earlier_attempt admit is_skipped run_job write_status
    mark_compile_active work on_failure download_manifest is_permanent text_of is_terminal iso_now
    pure modify gets merge find put status_blob_path progress_blob_path latest_path
    active_index_path lower contains_codes cut write_run_index run_index_blob_path
    blob_path_from_url previous_attempt_cannot_succeed read_status read_dict is_redundant
    unchanged_since_last_compile content_hashes idempotency_blob_path guarded_compile
    document_length send_keepalive_message finally download_artifacts write_reports
    write_compile_progress upload_sheet_renders upload_envelope write_fingerprint upload_atoms
    upload_sidecars delete_keepalive clear_compile_active enqueue_brief_gen trigger_brief_gen_http
    safe_delete clear_inflight raise lift
kept-compiled = refl

dispatch-compiles_example :
    (2 ≤ 5)
    × ((earlier_attempt kept (sample_message 2) job.job idle_process).0 ≡ ok none)
    × (is_skipped kept job.job ≡ false)
dispatch-compiles_example =
    dispatch-compiles kept "parser-jobs" (sample_message 2) job "" idle_process
      (λ e. omega (arith, kept-compiled, e))

poll-order_example :
    poll lost idle_process
    ≡ after_urgent lost idle_process (lost.reply [] (receive lost.priority_queue_name))
poll-order_example = poll-order lost idle_process

finish-empties_example :
    (finish kept "parser-jobs" (sample_message 2) job.job end idle_process).1.inflight ≡ no_inflight
unfolding finish ◌>>=◌ write_status iso_now attempt ask is_terminal write_run_index
    enqueue_brief_gen trigger_brief_gen_http safe_delete clear_inflight
finish-empties_example =
    finish-empties kept "parser-jobs" (sample_message 2) job.job end idle_process
      (finish kept "parser-jobs" (sample_message 2) job.job end idle_process).1 0 refl

abbrev manifest : Json
manifest = obj (fields (("artifacts", arr nil) ∷ []))

-- a world in which the manifest has been compiled already
abbrev same : Host
same =
    sample_world
      (("d1/manifest.json", manifest)
        ∷ (
          "deals/d1/orbitbrief/latest/compile-idempotency.json",
          obj (fields (("artifact_key", str "") ∷ [])),
        )
        ∷ [])
      none

abbrev loaded : Proc
loaded = (download_manifest same job.manifest_blob_url (entered same job idle_process)).1

abbrev compared : Proc
compared = (is_redundant same job manifest loaded).1

run_job-redundant_leaves_example :
    (run_job same "parser-jobs" (sample_message 1) job idle_process).1.inflight
    ≡ with_job same job idle_process
unfolding download_manifest is_redundant unchanged_since_last_compile content_hashes
    idempotency_blob_path latest_path blob_path_from_url ◌>>=◌ ask catch pure raise get find or_json
    truthy as_dict read_dict join_lines sorted norm_as_of manifest_as_of write_status
    mark_compile_active attempt iso_now is_terminal modify gets
run_job-redundant_leaves_example =
    run_job-redundant_leaves same "parser-jobs" (sample_message 1) job idle_process loaded compared
      manifest refl refl

do_compile-done_example :
    (count (reported_done "d1") (do_compile kept job manifest idle_process).1.log ≡ 0)
    ⊎ (0
        < count
            (stored_envelope (envelope_path kept job))
            (do_compile kept job manifest idle_process).1.log)
do_compile-done_example = do_compile-done kept job manifest idle_process

give_up-archives_example :
    (give_up kept "parser-jobs"
        (sample_message 9)
        job.job
        ""
        "exhausted_retries"
        ""
        ""
        "exhausted_retries"
        idle_process
      ≡ (safe_delete kept "parser-jobs" (sample_message 9) >>= λ _. pure 2) (
          archived kept "parser-jobs"
            (sample_message 9)
            job.job
            ""
            "exhausted_retries"
            ""
            ""
            "exhausted_retries"
            idle_process))
    × (count
          (acked "parser-jobs")
          (archived kept "parser-jobs"
            (sample_message 9)
            job.job
            ""
            "exhausted_retries"
            ""
            ""
            "exhausted_retries"
            idle_process).log
        ≡ 0)
    × (0
        < count
            (sent_to "parser-jobs-poison")
            (archived kept "parser-jobs"
              (sample_message 9)
              job.job
              ""
              "exhausted_retries"
              ""
              ""
              "exhausted_retries"
              idle_process).log)
give_up-archives_example =
    give_up-archives kept "parser-jobs" (sample_message 9) job.job "" "exhausted_retries" "" ""
      "exhausted_retries" idle_process refl refl
