-- ===== src/Message/Wrapped.antt =====
-- The two spellings of a queue message, and one that is refused.

use parser_os_worker.Base.{String, false, is_empty, none, refl, some, strip, ◌≡◌, ◌≢◌}
use parser_os_worker.Json.{Fields, as_dict, get, obj, or_json, str, truthy}
use parser_os_worker.Message.{
  JobMessage, attribute_get, from_raw, parse_base64, parse_queue_json, read_force, read_job,
  read_kind, required, ◌>>=◌,
}
use parser_os_worker.Service.{Host, Reply, answer, failure}

unwrapped :
    (w : Host) (raw inner : String) (d : Fields)
    → w.loads (strip raw) ≡ none
    → w.from_base64 (strip raw) ≡ some inner
    → w.loads inner ≡ some (obj d)
    → parse_queue_json w raw ≡ answer d
unfolding parse_queue_json parse_base64 as_dict
unwrapped w raw inner d e f g = rw (parse_queue_json, e, parse_base64, f, g) refl

unwrapped_plain :
    (w : Host) (raw : String) (d : Fields)
    → w.loads (strip raw) ≡ some (obj d)
    → parse_queue_json w raw ≡ answer d
unfolding parse_queue_json as_dict
unwrapped_plain w raw d e = rw (parse_queue_json, e) refl

-- A message that is not JSON, but the base64 of the text of a JSON dict, decodes as that text does;
-- the text is the same dict without the white space at its ends.
pub from_raw-wrapped :
    (w : Host) (raw inner : String) (d : Fields)
    → w.loads (strip raw) ≡ none
    → w.from_base64 (strip raw) ≡ some inner
    → w.loads inner ≡ some (obj d)
    → w.loads (strip inner) ≡ some (obj d)
    → from_raw w raw ≡ from_raw w inner
unfolding from_raw
from_raw-wrapped w raw inner d e f g h =
    rw (unwrapped w raw inner d e f g, unwrapped_plain w inner d h) refl

abbrev IsRefused {ℓ} : {A : Type ℓ} → Reply A → Type 0
IsRefused (answer a) = ⊥
IsRefused (failure e) = Unit

module _ {A B : Type 0} where
  IsRefused-first : (m : Reply A) (f : A → Reply B) → IsRefused m → IsRefused (m >>= f)
  IsRefused-first (answer a) f h = absurd h
  IsRefused-first (failure e) f h = tt

  IsRefused-later :
      (m : Reply A) (f : A → Reply B) → ((a : A) → IsRefused (f a)) → IsRefused (m >>= f)
  IsRefused-later (answer a) f h = h a
  IsRefused-later (failure e) f h = tt

not_answer : {A : Type 0} (m : Reply A) (a : A) → IsRefused m → m ≢ answer a
not_answer m a h e = rw e at h

module _ (w : Host) (d : Fields) (trigger : String) where
  kind-IsRefused :
      get "trigger" d ≡ str trigger → is_empty trigger ≡ false → IsRefused (read_kind w d)
  unfolding read_kind attribute_get as_dict or_json truthy
  kind-IsRefused e f = rw (e, f) tt

  job-IsRefused :
      get "trigger" d ≡ str trigger → is_empty trigger ≡ false → IsRefused (read_job w d)
  unfolding read_job
  job-IsRefused e f = IsRefused-later (required "compile_id" d) _ λ _.
      IsRefused-later (required "deal_id" d) _ λ _.
        IsRefused-later (required "manifest_blob_url" d) _ λ _.
          IsRefused-later (read_force w d _) _
            λ _. IsRefused-first (read_kind w d) _ (kind-IsRefused e f)

-- A message whose `trigger` is a text that is not empty is refused, whatever else stands in it.
pub from_raw-text_trigger :
    (w : Host) (raw trigger : String) (d : Fields) (job : JobMessage)
    → w.loads (strip raw) ≡ some (obj d)
    → get "trigger" d ≡ str trigger
    → is_empty trigger ≡ false
    → from_raw w raw ≢ answer job
unfolding from_raw
from_raw-text_trigger w raw trigger d job e f g =
    not_answer (from_raw w raw) job (rw (unwrapped_plain w raw d e) (job-IsRefused w d trigger f g))
