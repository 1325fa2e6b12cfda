-- ===== src/Main/Leftovers.antt =====
-- What a process leaves in `_INFLIGHT` when it has dealt with its message.
use parser_os_worker.Active.{mark_compile_active}
use parser_os_worker.Active.Effects.{mark-Returns}
use parser_os_worker.Base.{
  List, Option, String, [], ap, false, none, refl, some, sym, true, ℕ, ◌∙◌, ◌∷◌, ◌≡◌,
}
use parser_os_worker.Dedup.{compare_record, unchanged_since_last_compile}
use parser_os_worker.Documents.{parsed, read_dict, read_json}
use parser_os_worker.Download.{blob_path_from_url, download_manifest, download_url}
use parser_os_worker.Json.{Fields, Json, fields, str}
use parser_os_worker.Message.{JobMessage}
use parser_os_worker.Release.Calm.{
  Calm, Calm-ask, Calm-download_from, calm_rules, safe_delete-Calm, write_status-Calm,
}
use parser_os_worker.Service.{
  Exc, Host, Message, Reply, SimpleJob, answer, download_from, failure, replied, retrain_spans,
  retrain_types, run, write_back_ml,
}
use parser_os_worker.Service.Action.{
  Action, Inflight, Outcome, Proc, ask, catch, exited, handle, modify, no_inflight, ok, raise,
  raised, ◌>>=◌,
}
use parser_os_worker.Service.Keeps.{
  Keeps, Keeps-attempt, Keeps-bind, Keeps-if, Keeps-pure, Keeps-raise,
}
use parser_os_worker.Service.Returns.{IsOk-tt}
use parser_os_worker.Service.Triples.{
  Any, Triple, Triple-bind, Triple-keeps, Triple-ok, Triple-pure, Triple-weaken, triple_any,
}
use parser_os_worker.Status.{write_status}
use parser_os_worker.Status.Effects.{write_status-Returns}
use parser_os_worker.Work.{
  clear_inflight, finish, is_redundant, num_of, on_failure, retrain, run_job, set_inflight,
  skip_unchanged, work,
}

kept_by :
    {A : Type 0} {m : Action A} {s t : Proc} {o : Outcome A}
    → Keeps (Calm s.inflight) m
    → m s ≡ (o, t)
    → t.inflight ≡ s.inflight
kept_by {s} k e = sym (ap (λ r. r.1.inflight) e) ∙ k.at s refl

mark-Calm :
    (w : Host) (i : Inflight) (job : SimpleJob) (stage : Json)
    → Keeps (Calm i) (mark_compile_active w job stage)
unfolding mark_compile_active
mark-Calm w i job stage = search calm_rules depth 12

located-Calm :
    (w : Host) (i : Inflight) (url : String) (r : Reply (String × String))
    → Keeps (Calm i) (replied r raise (λ (container, path). ask w (download_from container path)))
located-Calm w i url (answer (c, p)) = Calm-download_from i w c p
located-Calm w i url (failure e) = Keeps-raise e

module _ (w : Host) (queue : String) (msg : Message) where
  skip-Calm : (i : Inflight) (job : SimpleJob) → Keeps (Calm i) (skip_unchanged w queue msg job)
  unfolding skip_unchanged
  skip-Calm i job = search (calm_rules, write_status-Calm, safe_delete-Calm) depth 12

  download-Calm : (i : Inflight) (url : String) → Keeps (Calm i) (download_manifest w url)
  unfolding download_manifest download_url parsed
  download-Calm i url =
      Keeps-bind _ _ (located-Calm w i url (blob_path_from_url w url))
        (λ b. search calm_rules depth 12)

  failure-Calm :
      (i : Inflight) (job : SimpleJob) (e : Exc) → Keeps (Calm i) (on_failure w queue msg job e)
  unfolding on_failure
  failure-Calm i job e = search (calm_rules, write_status-Calm, safe_delete-Calm) depth 12

  compare-Calm :
      (i : Inflight) (deal : String) (manifest : Json) (o : Option (List String))
      → Keeps (Calm i) (compare_record w deal manifest o)
  unfolding compare_record read_dict read_json parsed
  compare-Calm i deal manifest none = search calm_rules
  compare-Calm i deal manifest (some hashes) = search calm_rules depth 12

  redundant-Calm :
      (i : Inflight) (job : JobMessage) (manifest : Json)
      → Keeps (Calm i) (is_redundant w job manifest)
  unfolding is_redundant unchanged_since_last_compile
  redundant-Calm i job manifest =
      Keeps-if _ _ _ (Keeps-pure false) (compare-Calm i job.deal_id manifest _)

  -- where the compile has been found redundant
  redundant-leaves :
      (job : JobMessage) (s s₁ s₂ : Proc) (manifest : Json)
      → download_manifest w job.manifest_blob_url s ≡ (ok manifest, s₁)
      → is_redundant w job manifest s₁ ≡ (ok true, s₂)
      → (work w queue msg job s).1.inflight ≡ s.inflight
  unfolding work ◌>>=◌
  redundant-leaves job s s₁ s₂ manifest e f =
      rw (e, f)
        ((skip-Calm s₂.inflight job.job).at s₂ refl
          ∙ kept_by (redundant-Calm s₁.inflight job manifest) f
          ∙ kept_by (download-Calm s.inflight job.manifest_blob_url) e)

  retrain-Calm : (i : Inflight) (job : SimpleJob) → Keeps (Calm i) (retrain w job)
  unfolding retrain
  retrain-Calm i job =
      Keeps-if _ _ _
        (Keeps-bind _ _ (Keeps-attempt _ (Calm-ask i w (run job retrain_types))) λ _.
          Keeps-bind _ _ (Keeps-attempt _ (Calm-ask i w (run job retrain_spans)))
            λ _. Keeps-attempt _ (Calm-ask i w (run job write_back_ml)))
        (Keeps-pure tt)

  clear-Empties : Triple Any (clear_inflight w) (λ _. Calm no_inflight) Any
  unfolding clear_inflight modify
  clear-Empties = record { at = λ s p. refl }

  finish-Empties :
      (job : SimpleJob) (result : Fields)
      → Triple Any (finish w queue msg job result) (λ _. Calm no_inflight) Any
  unfolding finish
  finish-Empties job result = Triple-bind _ _ (triple_any _) λ _.
      Triple-bind _ _ (triple_any _) λ _. Triple-bind _ _ (triple_any _) λ _.
        Triple-bind _ _ (triple_any _) λ _. Triple-bind _ _ clear-Empties λ _.
          Triple-bind _ _
            (Triple-weaken _ (Triple-keeps (retrain w job) (retrain-Calm no_inflight job))
              (λ a s p. p) (λ s p. tt))
            (λ _. Triple-pure 0 (λ s p. p))

-- Whatever the services answer: when the steps that follow a compile have come to an end, nothing
-- is in flight any more.
pub finish-empties :
    (w : Host) (queue : String) (msg : Message) (job : SimpleJob) (result : Fields) (s s' : Proc)
    (code : ℕ)
    → finish w queue msg job result s ≡ (ok code, s')
    → s'.inflight ≡ no_inflight
finish-empties w queue msg job result s s' code e =
    Triple-ok (finish w queue msg job result) (finish-Empties w queue msg job result) s s' code tt e

module _ (w : Host) (job : JobMessage) (s : Proc) where
  -- `_INFLIGHT` with the job in it
  abbrev pub with_job : Inflight
  with_job = record s.inflight { job = some job.job }

  abbrev starting : Fields
  starting = fields (("stage", str "starting") ∷ ("percent_complete", num_of 0) ∷ [])

  abbrev said_running : Proc
  said_running =
      (write_status w job.job "running"
        (fields (("stage", str "starting") ∷ ("percent_complete", num_of 0) ∷ []))
        (record s { inflight = with_job })).1

  -- the state in which the work begins
  abbrev pub entered : Proc
  entered = (mark_compile_active w job.job (str "starting") said_running).1

  entered-with_job : entered.inflight ≡ with_job
  entered-with_job = (mark-Calm w with_job job.job (str "starting")).at said_running (
      (write_status-Calm with_job w job.job "running" starting).at
        (record s { inflight = with_job }) refl)

  begun :
      (queue : String) (msg : Message)
      → run_job w queue msg job s
        ≡ catch (work w queue msg job) (on_failure w queue msg job.job) entered
  unfolding run_job set_inflight modify ◌>>=◌
  begun queue msg =
      rw
        (
          IsOk-tt _ (
              (write_status-Returns w job.job "running" starting).at
                (record s { inflight = with_job })),
          IsOk-tt _ ((mark-Returns w job.job (str "starting")).at said_running),
        )
        refl

  caught_leaves :
      (queue : String) (msg : Message) (o : Outcome ℕ) (t : Proc)
      → t.inflight ≡ with_job
      → (handle o (on_failure w queue msg job.job) t).1.inflight ≡ with_job
  caught_leaves queue msg (ok code) t p = p
  caught_leaves queue msg (raised x) t p = (failure-Calm w queue msg with_job job.job x).at t p
  caught_leaves queue msg (exited n) t p = p

  run-leaves :
      (queue : String) (msg : Message)
      → (work w queue msg job entered).1.inflight ≡ entered.inflight
      → (run_job w queue msg job s).1.inflight ≡ with_job
  unfolding catch
  run-leaves queue msg e = rw (begun queue msg) (
      caught_leaves queue msg (work w queue msg job entered).0 (work w queue msg job entered).1
        (e ∙ entered-with_job))

-- A job whose manifest is downloaded, and whose compile is then found redundant, stays in
-- `_INFLIGHT`: `run_job` ends with what it found there, and the job added.
pub run_job-redundant_leaves :
    (w : Host) (queue : String) (msg : Message) (job : JobMessage) (s s₁ s₂ : Proc)
    (manifest : Json)
    → download_manifest w job.manifest_blob_url (entered w job s) ≡ (ok manifest, s₁)
    → is_redundant w job manifest s₁ ≡ (ok true, s₂)
    → (run_job w queue msg job s).1.inflight ≡ with_job w job s
run_job-redundant_leaves w queue msg job s s₁ s₂ manifest e f =
    run-leaves w job s queue msg
      (redundant-leaves w queue msg job (entered w job s) s₁ s₂ manifest e f)
