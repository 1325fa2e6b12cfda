-- ===== src/SowDraft/Final.antt =====
-- How a SOW draft ends.
use parser_os_worker.Base.{
  List, Option, String, [], ap, eq_refl, if◌then◌else◌, inl, inr, none, refl, some, str_eq, true, ℕ,
  ◌∙◌, ◌∷◌, ◌≡◌, ◌⊎◌,
}
use parser_os_worker.Json.{
  Fields, Json, as_dict, fields, find, get, merge, nat, num, obj, put, str, truthy,
}
use parser_os_worker.Recovery.{lift}
use parser_os_worker.Service.{Exc, History, Host, Reply, answer, did, document, failure, upload}
use parser_os_worker.Service.Action.{Proc, Reply-cases, ask, ok, pure, raise, ◌>>=◌}
use parser_os_worker.Service.Triples.{
  Any, Triple, Triple-bind, Triple-catch, Triple-if, Triple-maybe, Triple-ok, triple_any,
}
use parser_os_worker.SowDraft.{
  done_fields, draft, failed_draft, is_deal_id, run_sow_draft, sow_draft_status, sow_draft_summary,
  sow_status_path, stamped, write_draft,
}
use parser_os_worker.SowDraft.Summary.{Says, Stateless, get-merge, summary-Stateless}

-- the state that the newest event has put in the deal's draft status, if it has put one there
abbrev pub last_state : String → History → Option Json
last_state path (did (upload p (document (obj d)) none) ∷ l) =
    if str_eq p path then some (get "state" d) else none
last_state path _ = none

module _ (w : Host) (deal : String) where
  abbrev EndsIn : Proc → Type 0
  EndsIn s =
      (last_state (sow_status_path w deal) s.log ≡ some (str "done"))
      ⊎ (last_state (sow_status_path w deal) s.log ≡ some (str "failed"))

  raising : (e : Exc) → Triple Any (raise {A = Unit {0}} e) (λ _. EndsIn) Any
  unfolding raise
  raising e = record { at = λ s p. tt }

  stating :
      (d : Fields)
      → (get "state" d ≡ str "done") ⊎ (get "state" d ≡ str "failed")
      → Triple Any (sow_draft_status w deal d) (λ _. EndsIn) Any
  unfolding sow_draft_status ask
  stating d h = record {
    at = λ s p.
        elim (Reply-cases
          (w.reply s.log (upload (sow_status_path w deal) (document (obj d)) none))) [
            | inl (a, e) ↦
                rw (e, eq_refl (sow_status_path w deal))
                  (elim h [ inl f ↦ inl (ap some f) | inr f ↦ inr (ap some f) ])
            | inr (x, e) ↦ rw e tt
          ];
  }

  -- what every status of the draft starts with
  abbrev base_fields : String → String → Fields
  base_fields requested started =
      fields
        (("deal_id", str deal) ∷ ("requested_by", str requested) ∷ ("started_at", str started) ∷ [])

  started_done :
      (requested started : String)
      → get "state" (put "state" (str "done") (base_fields requested started)) ≡ str "done"
  unfolding get find put
  started_done requested started = refl

  done_state :
      (requested started : String) (seconds compile_id : Json) (locations : ℕ)
      (summary : List (String × Json))
      → Stateless summary
      → get "state"
          (done_fields w (base_fields requested started) seconds compile_id locations summary)
        ≡ str "done"
  unfolding done_fields
  done_state requested started seconds compile_id locations summary h =
      let entries =
        ("seconds", seconds)
        ∷ ("compile_id", compile_id)
        ∷ ("locations", num (nat locations))
        ∷ summary in
      get-merge _ entries (refl, (refl, (refl, h))) ∙ started_done requested started

  failed_with :
      (requested started : String) (e : Exc)
      → get "state" (failed_draft w (base_fields requested started) e) ≡ str "failed"
  unfolding failed_draft get find merge put
  failed_with requested started e = refl

  lifted :
      {A : Type 0} (R : A → Type 0) (r : Reply A)
      → Says R r
      → Triple Any (lift w r) (λ a _. R a) Any
  unfolding lift raise pure
  lifted R (answer a) h = record { at = λ s p. h }
  lifted R (failure e) h = record { at = λ s p. tt }

  summary-Ends :
      (requested started : String) (seconds compile_id : Json) (locations : ℕ) (sow : Fields)
      → Triple Any
          (lift w (sow_draft_summary w sow) >>= λ summary.
            sow_draft_status w deal
              (done_fields w (base_fields requested started) seconds compile_id locations summary))
          (λ _. EndsIn)
          Any
  summary-Ends requested started seconds compile_id locations sow =
      Triple-bind _ _ (lifted Stateless _ (summary-Stateless w sow)) λ summary. record {
        at = λ s h.
            (stating _
                (inl (done_state requested started seconds compile_id locations summary h))).at
              s tt;
      }

  write_draft-Ends :
      (requested started : String) (env : Fields)
      → Triple Any (write_draft w deal (base_fields requested started) env) (λ _. EndsIn) Any
  unfolding write_draft
  write_draft-Ends requested started env =
      Triple-if (truthy (get "c3_brief" env)) _ _
        (λ _. Triple-bind _ _ (triple_any _) λ sow. Triple-bind _ _ (triple_any _) λ now.
          Triple-bind _ _ (triple_any _) λ _. Triple-bind _ _ (triple_any _) λ _.
            Triple-bind _ _ (triple_any _) λ seconds.
              Triple-bind _ _ (triple_any _)
                λ locations. summary-Ends requested started seconds _ locations (stamped w sow now))
        (λ _. raising _)

  draft-Ends :
      (requested started : String)
      → Triple Any (draft w deal (base_fields requested started)) (λ _. EndsIn) Any
  unfolding draft
  draft-Ends requested started =
      Triple-bind _ _ (triple_any _)
        λ found. Triple-maybe (as_dict found) _ _ (raising _) (write_draft-Ends requested started)

  run-Ends :
      (job : Fields)
      → is_deal_id deal ≡ true
      → Triple Any (run_sow_draft w deal job) (λ _. EndsIn) Any
  unfolding run_sow_draft
  run-Ends job e = rw e (
      Triple-bind _ _ (triple_any _) λ started. Triple-bind _ _ (triple_any _) λ _.
        Triple-catch _ _ (draft-Ends _ started) (λ x. stating _ (inr (failed_with _ started x))))

-- Whatever the services answer: a SOW draft of a well-formed deal id that comes to an end without an
-- exception has put "done" or "failed" into the deal's draft status, as its last call.
pub run_sow_draft-states :
    (w : Host) (deal : String) (job : Fields) (s s' : Proc)
    → is_deal_id deal ≡ true
    → run_sow_draft w deal job s ≡ (ok tt, s')
    → (last_state (sow_status_path w deal) s'.log ≡ some (str "done"))
      ⊎ (last_state (sow_status_path w deal) s'.log ≡ some (str "failed"))
run_sow_draft-states w deal job s s' e f =
    Triple-ok (run_sow_draft w deal job) (run-Ends w deal job e) s s' tt tt f
