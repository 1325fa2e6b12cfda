-- ===== src/Compile/Order.antt =====
-- The progress document says "done" only when the envelope is there.
-- a document that says "done"
pub mod Silent
use text.Mathlib.TextLemmas.{append_cancel_left}
use parser_os_worker.Base.{
  Bool-cases, String, and_false, ap, arith, eq_iff, eq_refl, false, false≢true, inl, inr, none,
  refl, str_eq, suc, sym, true, ℕ, ◌<◌, ◌≡◌, ◌≤◌, ◌⊎◌,
}
use parser_os_worker.Compile.{deliver, do_compile, envelope_path, upload_envelope}
use parser_os_worker.Compile.Effects.{
  errand, sidecars-errand, write_compile_progress-storage, write_fingerprint-storage,
}
use parser_os_worker.Compile.Order.Silent.{
  Hushed, artifacts-Hushed, compiling-Hushed, projecting-Hushed, projection-Hushed,
  quiet-Misses-reported, reported_done, reports-Hushed, seed-Hushed, sheets-Hushed, stored_envelope,
}
use parser_os_worker.Compile.Stays.{do_compile-Stays}
use parser_os_worker.Documents.{is_text}
use parser_os_worker.Json.{Fields, Json, get, null, obj}
use parser_os_worker.Message.{JobMessage}
use parser_os_worker.Paths.{latest_path, progress_blob_path}
use parser_os_worker.Service.{CompileResult, Host, document, upload}
use parser_os_worker.Service.Action.{
  Action, Outcome, Proc, Reply-cases, ask, exited, ok, pure, raised, ◌>>=◌,
}
use parser_os_worker.Service.Calls.{errand_of_storage}
use parser_os_worker.Service.Keeps.{Keeps}
use parser_os_worker.Service.Only.{
  Only, Only-count, Only-gets, Only-grows, Only-iso_now, Only-modify, count,
}
use parser_os_worker.Service.Only.Rules.{
  Only-build_envelope, Only-compile_project, Only-prepare, Only-select_artifacts,
  Only-stage_reports, Only-to_scope_process,
}
use parser_os_worker.Service.Returns.{IsNotExit}
use parser_os_worker.Service.Triples.{
  Ends, Triple, Triple-bind, Triple-keeps, Triple-pure, Triple-weaken,
}
use parser_os_worker.Temp.Effects.{assert_tmp_has_space-Only, scrub_stale-Only}

Keeps-both :
    {A : Type 0} {P Q : Proc → Type 0} {m : Action A}
    → Keeps P m
    → Keeps Q m
    → Keeps (λ s. P s × Q s) m
Keeps-both k l = record { at = λ s (p, q). (k.at s p, l.at s q) }

-- the envelope is another document than the progress
module _ (w : Host) (job : JobMessage) where
  files :
      str_eq (envelope_path w job) (progress_blob_path job.deal_id) ≡ true
      → ◌≡◌ {A = String} "/orbitbrief/latest/envelope.json"
          "/orbitbrief/latest/compile-progress.json"
  unfolding envelope_path progress_blob_path latest_path
  files e = append_cancel_left job.deal_id _ _ (
      append_cancel_left "deals/" _ _
        ((eq_iff (envelope_path w job) (progress_blob_path job.deal_id)).0 e))

  other_document : str_eq (envelope_path w job) (progress_blob_path job.deal_id) ≡ false
  unfolding envelope_path progress_blob_path latest_path
  other_document =
      elim (Bool-cases (str_eq (envelope_path w job) (progress_blob_path job.deal_id))) [
        | inl e ↦
            absurd
              (false≢true (sym (ap (λ s. str_eq s "/orbitbrief/latest/envelope.json") (files e))))
        | inr e ↦ e
      ]

  module _ (n k : ℕ) where
    -- before the envelope is stored, nothing says "done"
    abbrev Open : Proc → Type 0
    Open s =
        (count (reported_done job.deal_id) s.log ≡ n)
        × (k ≤ count (stored_envelope (envelope_path w job)) s.log)

    -- it has been stored
    abbrev Stored : Proc → Type 0
    Stored s = suc k ≤ count (stored_envelope (envelope_path w job)) s.log

    abbrev Ordered : Proc → Type 0
    Ordered s = (count (reported_done job.deal_id) s.log ≡ n) ⊎ Stored s

    Hushed-Open : {A : Type 0} {m : Action A} → Hushed w job m → Triple Open m (λ _. Open) Ordered
    Hushed-Open {m = m} q =
        Triple-weaken m
          (Triple-keeps m (
            Keeps-both
              (Only-count (reported_done job.deal_id) n q (quiet-Misses-reported job.deal_id))
              (Only-grows (stored_envelope (envelope_path w job)) k q)))
          (λ a s p. p) (λ s (p, q). inl p)

    later-Stored :
        {A : Type 0} {m : Action A} → Only (errand w) m → Triple Stored m (λ _. Stored) Ordered
    later-Stored {m = m} q =
        Triple-weaken m
          (Triple-keeps m (Only-grows (stored_envelope (envelope_path w job)) (suc k) q))
          (λ a s p. p) (λ s p. inr p)

    storing : (e : Fields) → Triple Open (upload_envelope w job e) (λ _. Stored) Ordered
    unfolding upload_envelope ◌>>=◌ ask pure
    storing e = record {
      at = λ s (p, q).
          elim (Reply-cases
            (w.reply s.log (upload (envelope_path w job) (document (obj e)) none))) [
              | inl (a, f) ↦ rw (f, eq_refl (envelope_path w job)) (omega arith)
              | inr (x, f) ↦
                  rw (f, other_document, and_false (is_text "done" (get "status" e))) (inl p)
            ];
    }

    deliver-Ordered :
        (manifest : Json) (started : String) (r : CompileResult)
        → Triple Open (deliver w job manifest started r) (λ _. Ordered) Ordered
    unfolding deliver
    deliver-Ordered manifest started r =
        Triple-bind _ _ (Hushed-Open (projection-Hushed w job started _ _ _)) λ _.
          Triple-bind _ _ (Hushed-Open (projecting-Hushed w job r)) λ _.
            Triple-bind _ _ (Hushed-Open (Only-build_envelope w job.job refl)) λ envelope.
              Triple-bind _ _ (Hushed-Open (Only-to_scope_process w job.job refl)) λ scope.
                Triple-bind _ _ (Hushed-Open (sheets-Hushed w job)) λ _.
                  Triple-bind _ _ (storing _) λ path.
                    Triple-bind _ _
                      (later-Stored (
                        errand_of_storage _
                          (write_compile_progress-storage w job started "done" null _ _)))
                      λ _.
                        Triple-bind _ _
                          (later-Stored
                            (errand_of_storage _ (write_fingerprint-storage w job manifest)))
                          λ _.
                            Triple-bind _ _ (later-Stored (sidecars-errand w job scope r))
                              λ sidecars.
                                Triple-bind _ _ (later-Stored (Only-gets _))
                                  λ calls. Triple-pure _ (λ s p. inr p)

    do_compile-Ordered :
        (manifest : Json) → Triple Open (do_compile w job manifest) (λ _. Ordered) Ordered
    unfolding do_compile
    do_compile-Ordered manifest =
        Triple-bind _ _ (Hushed-Open (scrub_stale-Only w _ (λ t. refl))) λ _.
          Triple-bind _ _ (Hushed-Open (assert_tmp_has_space-Only w _ (λ t. refl) _)) λ _.
            Triple-bind _ _ (Hushed-Open (Only-prepare w job.job refl)) λ _.
              Triple-bind _ _ (Hushed-Open (Only-select_artifacts w job.job manifest refl))
                λ artifacts. Triple-bind _ _ (Hushed-Open (artifacts-Hushed w job artifacts)) λ _.
                  Triple-bind _ _ (Hushed-Open (compiling-Hushed w job)) λ _.
                    Triple-bind _ _ (Hushed-Open (Only-iso_now w)) λ started.
                      Triple-bind _ _ (Hushed-Open (Only-modify _ (λ s. refl))) λ _.
                        Triple-bind _ _ (Hushed-Open (seed-Hushed w job started)) λ _.
                          Triple-bind _ _ (Hushed-Open (Only-stage_reports w job.job refl))
                            λ reports.
                              Triple-bind _ _ (Hushed-Open (reports-Hushed w job started reports))
                                λ _.
                                  Triple-bind _ _
                                    (Hushed-Open (Only-compile_project w job.job _ refl))
                                    λ result. deliver-Ordered manifest started result

    settled :
        (o : Outcome Fields) (s : Proc) → IsNotExit o → Ends (λ _. Ordered) Ordered o s → Ordered s
    settled (ok a) s h p = p
    settled (raised x) s h p = p
    settled (exited x) s h p = absurd h

-- Whatever the services answer, and whether the compile returns or raises: if an upload of the deal's
-- progress document that says "done" has been tried during it, an upload of the deal's envelope has
-- come back during it.
pub do_compile-done :
    (w : Host) (job : JobMessage) (manifest : Json) (s : Proc)
    → (count (reported_done job.deal_id) (do_compile w job manifest s).1.log
        ≡ count (reported_done job.deal_id) s.log)
      ⊎ (count (stored_envelope (envelope_path w job)) s.log
          < count (stored_envelope (envelope_path w job)) (do_compile w job manifest s).1.log)
do_compile-done w job manifest s =
    let n = count (reported_done job.deal_id) s.log in
    let k = count (stored_envelope (envelope_path w job)) s.log in
    settled w job n k (do_compile w job manifest s).0 (do_compile w job manifest s).1
      ((do_compile-Stays w job manifest).at s)
      ((do_compile-Ordered w job n k manifest).at s (refl, omega arith))
