-- ===== src/SowDraft.antt =====
-- `_run_sow_draft` and `_sow_draft_status`: the SOW draft of one deal, written on request.
pub mod Effects
pub mod Final
pub mod Summary
use Prim.Native.Char.{code}
use parser_os_worker.Base.{
  Bool, List, String, [], cut, false, if◌then◌else◌, leb, maybe, none, size, str_eq, true, ℕ, ◌&&◌,
  ◌++◌, ◌<>◌, ◌==◌, ◌||◌, ◌∷◌,
}
use parser_os_worker.Budget.{len_of}
use parser_os_worker.Dedup.{sorted}
use parser_os_worker.Documents.{is_null, read_json}
use parser_os_worker.Json.{
  Fields, Items, Json, arr, as_dict, cons, fields, get, merge, nat, nil, num, obj, or_json, put,
  str, text_items, text_of, truthy,
}
use parser_os_worker.Message.{exc}
use parser_os_worker.Paths.{latest_path}
use parser_os_worker.Recovery.{lift}
use parser_os_worker.Service.{
  Exc, Host, Reply, answer, document, failure, run, upload, write_c3_sow,
}
use parser_os_worker.Service.Action.{
  Action, ask, attempt, catch, gets, iso_now, pure, raise, ◌>>=◌, ◌>>◌,
}

-- re.fullmatch(r"[0-9a-fA-F-]{36}", deal_id)
is_id_code : ℕ → Bool
is_id_code n =
    (leb 48 n && leb n 57) || (leb 97 n && leb n 102) || (leb 65 n && leb n 70) || n == 45

pub all_id_codes : String → Bool
unfolding is_id_code
all_id_codes String.[] = true
all_id_codes (String.◌∷◌ c s) = is_id_code (code c) && all_id_codes s

unfoldable pub is_deal_id : String → Bool
unfolding all_id_codes
is_deal_id s = size s == 36 && all_id_codes s

-- the neighbours that are equal, once
unfoldable pub unique : List String → List String
unique [] = []
unique (s ∷ []) = s ∷ []
unique (s ∷ t ∷ l) = let rest = unique (t ∷ l) in if str_eq s t then rest else s ∷ rest

-- ", ".join(texts)
unfoldable pub join_commas : List String → String
join_commas [] = ""
join_commas (s ∷ []) = s
join_commas (s ∷ t ∷ l) = s <> ", " <> join_commas (t ∷ l)

abbrev is_none : List String → Bool
is_none [] = true
is_none (s ∷ l) = false

-- if calls: out["llm_failures"] = calls
reported : List String → List (String × Json)
reported calls = if is_none calls then [] else ("llm_failures", arr (text_items calls)) ∷ []

abbrev copied_keys : List String
copied_keys = "site_source" ∷ "job_family" ∷ "job_family_by" ∷ "origin_counts" ∷ []

module _ (w : Host) where
  pub sow_status_path : String → String
  sow_status_path deal = latest_path deal "sow-draft-status.json"

  -- _sow_draft_status, which may raise
  unfoldable pub sow_draft_status : String → Fields → Action (Unit {0})
  unfolding sow_status_path
  sow_draft_status deal body = ask w (upload (sow_status_path deal) (document (obj body)) none)

  abbrev error_text : Exc → String
  error_text e = e.kind <> ": " <> cut 200 e.message

  -- the calls of an item of llm_failures: one, or none
  call_of : Json → List String
  call_of (obj d) = if truthy (get "call" d) then text_of w.repr (get "call" d) ∷ [] else []
  call_of _ = []

  calls_of : Items → List String
  unfolding call_of
  calls_of nil = []
  calls_of (cons j js) = call_of j ++ calls_of js

  -- sorted({... for f in failures}), where iterating a number raises
  failed_calls : Json → Reply (List String)
  unfolding calls_of
  failed_calls (arr js) = answer (unique (sorted (calls_of js)))
  failed_calls (obj d) = answer []
  failed_calls (str s) = answer []
  failed_calls _ = failure (exc "TypeError" "object is not iterable")

  summary_reason : String → Fields → List String → List (String × Json)
  summary_reason status c calls =
      if str_eq status "failed"
      then (
        "failed_because",
        str (
            cut 300 (
              text_of w.repr (
                or_json (or_json (get "failed_because" c) (get "error" c))
                  (str "the SOW writer gave no reason")))),
      )
        ∷ []
      else if str_eq status "degraded"
      then (
        "degraded_because",
        str (
            if is_none calls
            then "the SOW writer marked it degraded"
            else "LLM call(s) "
              <> join_commas calls
              <> " returned nothing usable; those steps ran without an answer"),
      )
        ∷ []
      else []

  -- the keys of `ks` that are there, with what is there
  copied : List String → Fields → List (String × Json)
  copied [] c = []
  copied (k ∷ ks) c =
      let rest = copied ks c in if is_null (get k c) then rest else (k, get k c) ∷ rest

  draft_status_of : Fields → String
  draft_status_of c = text_of w.repr (
      or_json (get "draft_status" c) (str (if truthy (get "error" c) then "failed" else "unknown")))

  summary_fields : Fields → List String → List (String × Json)
  unfolding summary_reason copied draft_status_of reported
  summary_fields c calls =
      let status = draft_status_of c in
      ("draft_status", str status) ∷ summary_reason status c calls
      ++ reported calls
      ++ copied copied_keys c

  -- _sow_draft_summary
  pub sow_draft_summary : Fields → Reply (List (String × Json))
  unfolding failed_calls summary_fields
  sow_draft_summary c = elim (failed_calls (or_json (get "llm_failures" c) (arr nil))) [
    | failure e ↦ failure e
    | answer calls ↦ answer (summary_fields c calls)
  ]

  update_handoff : String → Json → Action (Unit {0})
  update_handoff deal sow = attempt (do
    found ← read_json w (latest_path deal "PM_HANDOFF.json")
    maybe (as_dict found) (raise (exc "TypeError" "object does not support item assignment")) λ d.
        ask w
          (upload (latest_path deal "PM_HANDOFF.json") (document (obj (put "c3_sow" sow d))) none))

  stamped : Fields → String → Fields
  stamped sow now = put "written_on" (str "sowsmith_run") (put "written_at" (str now) sow)

  -- the status of a draft that was written
  done_fields : Fields → Json → Json → ℕ → List (String × Json) → Fields
  done_fields base seconds compile_id locations summary = merge (put "state" (str "done") base) (
      fields (
        ("seconds", seconds)
        ∷ ("compile_id", compile_id)
        ∷ ("locations", num (nat locations))
        ∷ summary))

  write_draft : String → Fields → Fields → Action (Unit {0})
  unfolding update_handoff stamped sow_draft_summary done_fields
  write_draft deal base env =
      if truthy (get "c3_brief" env)
      then (do
        sow ← ask w (run (record { deal_id = deal; compile_id = "" }) (write_c3_sow env))
        now ← iso_now w
        let written = put "c3_sow" (obj (stamped sow now)) env
        ask w (upload (latest_path deal "envelope.json") (document (obj written)) none)
        update_handoff deal (obj (stamped sow now))
        seconds ← gets (λ s. w.draft_seconds s.log)
        locations ← lift w (len_of (or_json (get "locations" (stamped sow now)) (arr nil)))
        summary ← lift w (sow_draft_summary (stamped sow now))
        sow_draft_status deal (done_fields base seconds (get "compile_id" env) locations summary))
      else raise (exc "RuntimeError" "the latest envelope has no c3_brief; compile the deal first")

  draft : String → Fields → Action (Unit {0})
  unfolding write_draft
  draft deal base = do
    found ← read_json w (latest_path deal "envelope.json")
    maybe (as_dict found) (raise (exc "AttributeError" "object has no attribute 'get'"))
        (write_draft deal base)

  failed_draft : Fields → Exc → Fields
  failed_draft base e = merge (put "state" (str "failed") base) (
      fields (
        ("error", str (error_text e))
        ∷ ("draft_status", str "failed")
        ∷ ("failed_because", str (error_text e))
        ∷ []))

  -- _run_sow_draft
  unfoldable pub run_sow_draft : String → Fields → Action (Unit {0})
  unfolding draft failed_draft
  run_sow_draft deal job =
      if is_deal_id deal
      then (do
        started ← iso_now w
        let requested = cut 120 (text_of w.repr (or_json (get "requested_by" job) (str "")))
        let base = fields (
            ("deal_id", str deal)
            ∷ ("requested_by", str requested)
            ∷ ("started_at", str started)
            ∷ [])
        sow_draft_status deal (put "state" (str "running") base)
        catch (draft deal base) (λ e. sow_draft_status deal (failed_draft base e)))
      else pure tt
