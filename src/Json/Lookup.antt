-- ===== src/Json/Lookup.antt =====
-- Looking up a key of a dict after a write.
use parser_os_worker.Base.{Bool-cases, String, eq_refl, false, inl, inr, refl, str_eq, ◌≡◌}
use parser_os_worker.Json.{Fields, Json, end, field, find, get, put}
use parser_os_worker.Service.Calls.{differ_lemma}

pub get-put : (k : String) (j : Json) (d : Fields) → get k (put k j d) ≡ j
unfolding get find put
get-put k j end = rw (eq_refl k) refl
get-put k j (field i x d) = elim (Bool-cases (str_eq i k)) [
  | inl e ↦ rw (e, e) refl
  | inr e ↦ rw (e, e) (get-put k j d)
]

-- a write leaves the other keys as they are
pub get-put_other :
    (q k : String) (j : Json) (d : Fields) → str_eq k q ≡ false → get q (put k j d) ≡ get q d
unfolding get find put
get-put_other q k j end h = rw h refl
get-put_other q k j (field i x d) h = elim (Bool-cases (str_eq i k)) [
  | inl e ↦ rw (e, differ_lemma i q k h e) refl
  | inr e ↦ rw e (elim (Bool-cases (str_eq i q)) [
    | inl f ↦ rw f refl
    | inr f ↦ rw f (get-put_other q k j d h)
  ])
]
