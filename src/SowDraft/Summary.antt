-- ===== src/SowDraft/Summary.antt =====
-- The summary of a SOW draft: what it adds to a status leaves the status's state as it is.
use parser_os_worker.Base.{
  Bool, List, String, [], false, if◌then◌else◌, refl, str_eq, true, ◌++◌, ◌∙◌, ◌∷◌, ◌≡◌,
}
use parser_os_worker.Documents.{is_null}
use parser_os_worker.Json.{Fields, Json, fields, get, merge, put}
use parser_os_worker.Json.Lookup.{get-put_other}
use parser_os_worker.Service.{Host, Reply, answer, failure}
use parser_os_worker.SowDraft.{
  copied, copied_keys, draft_status_of, reported, sow_draft_summary, summary_fields, summary_reason,
}

-- fields none of which is a state
abbrev pub Stateless : List (String × Json) → Type 0
Stateless [] = Unit
Stateless ((k, j) ∷ l) = (str_eq k "state" ≡ false) × Stateless l

-- keys none of which is a state's
abbrev NoState : List String → Type 0
NoState [] = Unit
NoState (k ∷ ks) = (str_eq k "state" ≡ false) × NoState ks

pub get-merge :
    (d : Fields) (l : List (String × Json))
    → Stateless l
    → get "state" (merge d (fields l)) ≡ get "state" d
unfolding merge
get-merge d [] h = refl
get-merge d ((k, j) ∷ l) h = get-merge (put k j d) l h.1 ∙ get-put_other "state" k j d h.0

append-Stateless : (l m : List (String × Json)) → Stateless l → Stateless m → Stateless (l ++ m)
append-Stateless [] m h g = g
append-Stateless ((k, j) ∷ l) m h g = (h.0, append-Stateless l m h.1 g)

reported-Stateless : (calls : List String) → Stateless (reported calls)
unfolding reported
reported-Stateless [] = tt
reported-Stateless (s ∷ l) = (refl, tt)

copied_if :
    (b : Bool) (k : String) (j : Json) (l : List (String × Json))
    → str_eq k "state" ≡ false
    → Stateless l
    → Stateless (if b then l else (k, j) ∷ l)
copied_if true k j l h g = g
copied_if false k j l h g = (h, g)

reason_if :
    (b c : Bool) (x y : Json)
    → Stateless
        (if b then ("failed_because", x) ∷ [] else if c then ("degraded_because", y) ∷ [] else [])
reason_if true c x y = (refl, tt)
reason_if false true x y = (refl, tt)
reason_if false false x y = tt

-- what holds of an answer, where there is one
abbrev pub Says : {A : Type 0} → (A → Type 0) → Reply A → Type 0
Says R (answer a) = R a
Says R (failure e) = Unit

module _ (w : Host) where
  reason-Stateless :
      (status : String) (c : Fields) (calls : List String)
      → Stateless (summary_reason w status c calls)
  unfolding summary_reason
  reason-Stateless status c calls = reason_if _ _ _ _

  copied-Stateless : (ks : List String) (c : Fields) → NoState ks → Stateless (copied w ks c)
  unfolding copied
  copied-Stateless [] c h = tt
  copied-Stateless (k ∷ ks) c h =
      copied_if (is_null (get k c)) k (get k c) (copied w ks c) h.0 (copied-Stateless ks c h.1)

  fields-Stateless : (c : Fields) (calls : List String) → Stateless (summary_fields w c calls)
  unfolding summary_fields
  fields-Stateless c calls =
      let status = draft_status_of w c in
      let head = summary_reason w status c calls ++ reported calls in
      (
        refl,
        append-Stateless head (copied w copied_keys c)
            (append-Stateless (summary_reason w status c calls) (reported calls)
              (reason-Stateless status c calls) (reported-Stateless calls))
            (copied-Stateless copied_keys c (refl, (refl, (refl, (refl, tt))))),
      )

  fields-Says :
      (c : Fields) (r : Reply (List String))
      → Says Stateless
          (elim r [ failure e ↦ failure e | answer calls ↦ answer (summary_fields w c calls) ])
  fields-Says c (failure e) = tt
  fields-Says c (answer calls) = fields-Stateless c calls

  pub summary-Stateless : (c : Fields) → Says Stateless (sow_draft_summary w c)
  unfolding sow_draft_summary
  summary-Stateless c = fields-Says c _
