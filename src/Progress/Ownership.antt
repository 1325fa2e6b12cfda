-- ===== src/Progress/Ownership.antt =====
-- Whose document `_fail_progress_if_ours` writes.
use parser_os_worker.Base.{Bool, String, false, none, refl, some, true, ◌∷◌, ◌≡◌}
use parser_os_worker.Documents.{parsed}
use parser_os_worker.Json.{Fields, as_dict, end, obj}
use parser_os_worker.Paths.{progress_blob_path}
use parser_os_worker.Progress.{
  current_progress, fail_progress_if_ours, failed_payload, is_not_found, is_ours,
}
use parser_os_worker.Service.{
  Answer, Blob, Call, Exc, Host, Reply, SimpleJob, answer, did, document, download, failed, failure,
  upload,
}
use parser_os_worker.Service.Action.{
  Outcome, Proc, ask, catch, continue, handle, iso_now, ok, pure, settle, ◌>>=◌,
}

-- how the one upload of a call ends
abbrev pub after_upload : (c : Call) → Proc → Reply (Answer c) → Outcome Bool × Proc
after_upload c s (answer _) = (ok true, record s { log = did c ∷ s.log })
after_upload c s (failure _) = (ok false, record s { log = failed c ∷ s.log })

written_after :
    (c : Call) (t : Proc) (r : Reply (Answer c))
    → handle
        (continue (settle c t r).0 (λ _. pure true) (settle c t r).1).0
        (λ _. pure false)
        (continue (settle c t r).0 (λ _. pure true) (settle c t r).1).1
      ≡ after_upload c t r
unfolding pure
written_after c t (answer _) = refl
written_after c t (failure _) = refl

module _ (w : Host) (job : SimpleJob) (stage error status : String) (b : Blob) (d : Fields)
    (s : Proc) where
  -- the state after the read
  abbrev pub seen_state : Proc
  seen_state = record s { log = did (download (progress_blob_path job.deal_id)) ∷ s.log }

  -- the upload that fails the run
  abbrev pub failing_upload : Call
  failing_upload =
      upload (progress_blob_path job.deal_id)
        (document (obj (failed_payload w job stage error status d (w.now seen_state.log)))) b.etag

  found :
      w.reply s.log (download (progress_blob_path job.deal_id)) ≡ answer b
      → b.doc ≡ some (obj d)
      → current_progress w job.deal_id s ≡ (ok (d, b.etag), seen_state)
  unfolding current_progress parsed ◌>>=◌ catch ask pure as_dict
  found e f = rw (e, f) refl

-- A progress document that names another compile is left as it is: nothing is called after the read,
-- and the answer is false.
pub fail_progress-foreign :
    (w : Host) (job : SimpleJob) (stage error status : String) (b : Blob) (d : Fields) (s : Proc)
    → w.reply s.log (download (progress_blob_path job.deal_id)) ≡ answer b
    → b.doc ≡ some (obj d)
    → is_ours job d ≡ false
    → fail_progress_if_ours w job stage error status s
      ≡ (ok false, seen_state w job stage error status b d s)
unfolding fail_progress_if_ours catch ◌>>=◌ pure
fail_progress-foreign w job stage error status b d s e f g =
    rw (found w job stage error status b d s e f, g) refl

-- A progress document of this compile is replaced by one upload, which carries the etag that was
-- read; the answer is whether the upload came back.
pub fail_progress-ours :
    (w : Host) (job : SimpleJob) (stage error status : String) (b : Blob) (d : Fields) (s : Proc)
    → w.reply s.log (download (progress_blob_path job.deal_id)) ≡ answer b
    → b.doc ≡ some (obj d)
    → is_ours job d ≡ true
    → fail_progress_if_ours w job stage error status s
      ≡ after_upload
          (failing_upload w job stage error status b d s)
          (seen_state w job stage error status b d s)
          (w.reply
            (seen_state w job stage error status b d s).log
            (failing_upload w job stage error status b d s))
unfolding fail_progress_if_ours catch ◌>>=◌ iso_now ask
fail_progress-ours w job stage error status b d s e f g =
    rw (found w job stage error status b d s e f, g)
      (written_after (failing_upload w job stage error status b d s)
        (seen_state w job stage error status b d s)
        (w.reply (seen_state w job stage error status b d s).log
          (failing_upload w job stage error status b d s)))

module _ (w : Host) (job : SimpleJob) (stage error status : String) (s : Proc) where
  -- the state after a read that found nothing
  abbrev pub missed_state : Proc
  missed_state = record s { log = failed (download (progress_blob_path job.deal_id)) ∷ s.log }

  -- the upload that fails the run where nothing was there
  abbrev pub blind_upload : Call
  blind_upload =
      upload (progress_blob_path job.deal_id)
        (document (obj (failed_payload w job stage error status end (w.now missed_state.log)))) none

  missed :
      (x : Exc)
      → w.reply s.log (download (progress_blob_path job.deal_id)) ≡ failure x
      → is_not_found x ≡ true
      → current_progress w job.deal_id s ≡ (ok (end, none), missed_state)
  unfolding current_progress parsed ◌>>=◌ catch ask pure
  missed x e f = rw (e, f) refl

-- Where no progress document is there, one is uploaded without any condition, so that one which
-- appears in between is not looked at; the answer is whether the upload came back.
pub fail_progress-absent :
    (w : Host) (job : SimpleJob) (stage error status : String) (x : Exc) (s : Proc)
    → w.reply s.log (download (progress_blob_path job.deal_id)) ≡ failure x
    → is_not_found x ≡ true
    → fail_progress_if_ours w job stage error status s
      ≡ after_upload
          (blind_upload w job stage error status s)
          (missed_state w job stage error status s)
          (w.reply
            (missed_state w job stage error status s).log
            (blind_upload w job stage error status s))
unfolding fail_progress_if_ours catch ◌>>=◌ iso_now ask is_ours
fail_progress-absent w job stage error status x s e f =
    rw (missed w job stage error status s x e f) (
      written_after (blind_upload w job stage error status s)
        (missed_state w job stage error status s)
        (w.reply (missed_state w job stage error status s).log
          (blind_upload w job stage error status s)))
