-- ===== src/Tests/Parts/Documents.antt =====
-- What the worker reads, in these worlds: a manifest, a message, and the documents of earlier compiles.
use parser_os_worker.Base.{String, [], arith, refl, size, some, strip, ◌*◌, ◌∷◌, ◌≡◌, ◌≢◌, ◌≤◌, ◌⊎◌}
use parser_os_worker.Budget.{budget_ceiling, budget_floor, compile_budget, document_count}
use parser_os_worker.Budget.Bounds.{compile_budget-bounds, compile_budget-monotone}
use parser_os_worker.Dedup.{fingerprint}
use parser_os_worker.Json.{
  Fields, Json, arr, as_dict, cons, fields, get, merge, nil, null, obj, or_json, str,
}
use parser_os_worker.Message.{from_raw}
use parser_os_worker.Message.Wrapped.{from_raw-text_trigger, from_raw-wrapped}
use parser_os_worker.Paths.{status_blob_path}
use parser_os_worker.Service.{Host, answer}
use parser_os_worker.Service.Action.{ok}
use parser_os_worker.Status.{
  is_do_not_rerun, previous_attempt_cannot_succeed, run_index_body, run_index_metadata,
  status_payload,
}
use parser_os_worker.Status.Bounds.{
  AreHeaders, run_index_body-ShortError, run_index_metadata-AreHeaders,
}
use parser_os_worker.Status.Earlier.{previous-written}
use parser_os_worker.Tests.{idle_process, sample_config, sample_fields}
use parser_os_worker.Tests.Parts.{alone, blob, job, simple, with}

abbrev three : Json
three = obj (fields (("artifacts", arr (cons null (cons null (cons null nil)))) ∷ []))

compile_budget-bounds_example :
    (budget_floor sample_config ≤ compile_budget sample_config three)
    × (compile_budget sample_config three ≤ budget_ceiling sample_config)
    × (28800 * 900 ≤ budget_floor sample_config
        → compile_budget sample_config three ≡ budget_floor sample_config)
compile_budget-bounds_example = compile_budget-bounds sample_config three

compile_budget-monotone_example :
    compile_budget sample_config null ≤ compile_budget sample_config three
unfolding document_count as_dict or_json get
compile_budget-monotone_example = compile_budget-monotone sample_config null three (omega arith)

from_raw-wrapped_example : from_raw alone "wrapped" ≡ from_raw alone "{\"deal_id\": \"d1\"}"
unfolding strip
from_raw-wrapped_example =
    from_raw-wrapped alone "wrapped" "{\"deal_id\": \"d1\"}" sample_fields refl refl refl refl

-- a message whose trigger is a text
abbrev manual : Fields
manual = fields (("trigger", str "manual") ∷ [])

abbrev texts : Host
texts = record alone { loads = λ s. some (obj manual) }

from_raw-text_trigger_example : from_raw texts "manual" ≢ answer job
unfolding strip get
from_raw-text_trigger_example =
    from_raw-text_trigger texts "manual" "manual" manual job refl refl refl

abbrev timed_out : Json
timed_out = obj (
    status_payload alone simple "failed"
      (fields (("stage", str "timeout") ∷ ("error", str "slow") ∷ [])) "2024-05-01T09:00:00Z")

abbrev timed_out_world : Host
timed_out_world = with "deals/d1/parser-jobs/c1.json" timed_out

previous-written_example :
    (previous_attempt_cannot_succeed timed_out_world simple idle_process).0 ≡ ok (some "timeout")
unfolding is_do_not_rerun status_blob_path status_payload merge
previous-written_example =
    previous-written timed_out_world simple "failed" "timeout" "slow" "2024-05-01T09:00:00Z"
      (blob timed_out) idle_process refl refl refl refl

abbrev idle_manifest : Json
idle_manifest = obj (fields (("artifacts", arr nil) ∷ []))

abbrev left : Json
left = obj (fingerprint alone [] idle_manifest "c0" "2024-05-01T09:00:00Z")

abbrev left_world : Host
left_world = with "deals/d1/orbitbrief/latest/compile-idempotency.json" left

-- the status of a run that failed
abbrev failed_run : Fields
failed_run =
    status_payload alone simple "failed"
      (fields (("stage", str "timeout") ∷ ("error", str "slow…") ∷ [])) "2024-05-01T09:00:00Z"

run_index_metadata-AreHeaders_example :
    AreHeaders (run_index_metadata alone ("status" ∷ "stage" ∷ "error" ∷ []) failed_run)
run_index_metadata-AreHeaders_example =
    run_index_metadata-AreHeaders alone ("status" ∷ "stage" ∷ "error" ∷ []) failed_run

run_index_body-ShortError_example :
    (get "error" (run_index_body alone failed_run) ≡ null)
    ⊎ ((s : String) × (get "error" (run_index_body alone failed_run) ≡ str s) × (size s ≤ 500))
run_index_body-ShortError_example = run_index_body-ShortError alone failed_run
