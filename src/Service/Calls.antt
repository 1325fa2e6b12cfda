-- ===== src/Service/Calls.antt =====
-- Classes of calls, and the kinds of events that theorems count.

use parser_os_worker.Base.{Bool, String, eq_iff, false, false≢true, refl, str_eq, true, ◌≡◌}
use parser_os_worker.Service.{
  Call, Event, compile_project, create_queue, delete_blob, delete_message, did, download,
  download_from, exists, failed, list_blobs, receive, run, send_message, update_message, upload,
}
use parser_os_worker.Service.Action.{Action}
use parser_os_worker.Service.Only.{Misses, Only, Only-weaken}

-- the blobs
abbrev pub is_storage : Call → Bool
is_storage (download p) = true
is_storage (download_from c p) = true
is_storage (upload p b e) = true
is_storage (delete_blob p) = true
is_storage (exists p) = true
is_storage (list_blobs p) = true
is_storage _ = false

-- everything but taking a message, renewing a lease, running a package, and deleting a message of
-- another queue than this
abbrev pub is_desk : String → Call → Bool
is_desk q (receive r) = false
is_desk q (update_message r i x v) = false
is_desk q (delete_message r i x) = str_eq r q
is_desk q (run job t) = false
is_desk q _ = true

-- the same, with the packages
abbrev pub is_errand : String → Call → Bool
is_errand q (receive r) = false
is_errand q (update_message r i x v) = false
is_errand q (delete_message r i x) = str_eq r q
is_errand q _ = true

storage-is_desk : (q : String) (c : Call) → is_storage c ≡ true → is_desk q c ≡ true
storage-is_desk q (receive r) h = h
storage-is_desk q (update_message r i x v) h = h
storage-is_desk q (delete_message r i x) h = absurd (false≢true h)
storage-is_desk q (run job t) h = h
storage-is_desk q _ h = refl

desk-is_errand : (q : String) (c : Call) → is_desk q c ≡ true → is_errand q c ≡ true
desk-is_errand q (receive r) h = h
desk-is_errand q (update_message r i x v) h = h
desk-is_errand q (delete_message r i x) h = h
desk-is_errand q (run job t) h = refl
desk-is_errand q _ h = refl

pub desk_of_storage {ℓ} :
    {A : Type ℓ} (q : String) {m : Action A} → Only is_storage m → Only (is_desk q) m
desk_of_storage q h = Only-weaken h (storage-is_desk q)

pub errand_of_desk {ℓ} :
    {A : Type ℓ} (q : String) {m : Action A} → Only (is_desk q) m → Only (is_errand q) m
errand_of_desk q h = Only-weaken h (desk-is_errand q)

pub errand_of_storage {ℓ} :
    {A : Type ℓ} (q : String) {m : Action A} → Only is_storage m → Only (is_errand q) m
errand_of_storage q h = errand_of_desk q (desk_of_storage q h)

-- a delete of a message of the queue that came back
abbrev pub acked : String → Event → Bool
acked q (did (delete_message r i x)) = str_eq r q
acked q _ = false

-- a delete of a message of the queue, whether it came back or raised
abbrev pub ack_tried : String → Event → Bool
ack_tried q (did (delete_message r i x)) = str_eq r q
ack_tried q (failed (delete_message r i x)) = str_eq r q
ack_tried q _ = false

-- a compile that was started
abbrev pub compiled : Event → Bool
compiled (did (run job (compile_project o))) = true
compiled (failed (run job (compile_project o))) = true
compiled _ = false

-- a poll of a queue
abbrev pub polled : Event → Bool
polled (did (receive q)) = true
polled (failed (receive q)) = true
polled _ = false

-- a message sent to the queue, or an attempt at it
abbrev pub sent_to : String → Event → Bool
sent_to q (did (send_message r j)) = str_eq r q
sent_to q (failed (send_message r j)) = str_eq r q
sent_to q (failed (create_queue r)) = str_eq r q
sent_to q _ = false

-- two texts that differ from a third
abbrev pub differ_lemma :
    (r q v : String) → str_eq v q ≡ false → str_eq r v ≡ true → str_eq r q ≡ false
differ_lemma r q v h e = rw ((eq_iff r v).0 e) h

-- What an errand of the in-flight queue `v` leaves of another queue `q`.
pub errand-Misses-acked : (v q : String) → str_eq v q ≡ false → Misses (is_errand v) (acked q)
errand-Misses-acked v q h (delete_message r i x) e = (differ_lemma r q v h e, refl)
errand-Misses-acked v q h _ e = (refl, refl)

pub errand-Misses-polled : (v : String) → Misses (is_errand v) polled
errand-Misses-polled v (receive q) e = absurd (false≢true e)
errand-Misses-polled v _ e = (refl, refl)

pub desk-Misses-compiled : (v : String) → Misses (is_desk v) compiled
desk-Misses-compiled v (run job t) e = absurd (false≢true e)
desk-Misses-compiled v _ e = (refl, refl)
