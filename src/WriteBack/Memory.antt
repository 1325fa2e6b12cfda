-- ===== src/WriteBack/Memory.antt =====
-- A container in memory, which keeps the laws of a container and never fails.
use parser_os_worker.Base.{
  Bool-cases, List, Option, String, [], arith, eq_iff, eq_refl, false≢true, if◌then◌else◌, inl, inr,
  is_some, length, maybe, none, refl, some, starts_with, str_eq, true, ℕ, ◌∷◌, ◌≡◌, ◌≢◌,
}
use parser_os_worker.Service.{answer}
use parser_os_worker.Service.Action.{Option-cases}
use parser_os_worker.WriteBack.{Bucket}
use parser_os_worker.WriteBack.Laws.{All, IsLawful, IsReliable, Listed, is_listed}

abbrev Blobs : Type 0
Blobs = List (String × List ℕ)

abbrev pub stored : String → Blobs → Option (List ℕ)
stored j [] = none
stored j ((n, body) ∷ d) = if str_eq n j then some body else stored j d

abbrev erase : String → Blobs → Blobs
erase j [] = []
erase j ((n, body) ∷ d) = let rest = erase j d in if str_eq n j then rest else (n, body) ∷ rest

-- the entries of `d` in a listing of `all`
abbrev listing : Blobs → String → Blobs → List (String × Option ℕ)
listing blobs p [] = []
listing blobs p ((n, body) ∷ d) =
    let rest = listing blobs p d in
    if starts_with n p then (n, maybe (stored n blobs) none (λ b. some (length b))) ∷ rest else rest

abbrev pub memory : Bucket
memory = record {
  State = Blobs;
  get = λ d j. stored j d;
  connect = answer tt;
  list = λ p d. answer (listing d p d);
  upload = λ n body d. (answer tt, (n, body) ∷ d);
  delete = λ n d. (answer tt, erase n d);
}

stored-erase :
    (n j : String) (d : Blobs) → stored j (erase n d) ≡ (if str_eq n j then none else stored j d)
stored-erase n j [] = ground arith
stored-erase n j ((m, body) ∷ d) =
    ground (arith, eq_iff m n, eq_iff n j, eq_iff m j, stored-erase n j d)

listing-Listed :
    (blobs : Blobs) (p : String) (d : Blobs)
    → ((n : String) → is_some (stored n d) ≡ true → is_some (stored n blobs) ≡ true)
    → All (Listed memory p blobs) (listing blobs p d)
listing-Listed blobs p [] h = tt
listing-Listed blobs p ((n, body) ∷ d) h =
    let rest =
      listing-Listed blobs p d
        (λ m e. h m (elim (Bool-cases (str_eq n m)) [ inl f ↦ rw f refl | inr f ↦ rw f e ])) in
    elim (Bool-cases (starts_with n p)) [
      | inr e ↦ rw (e) rest
      | inl e ↦ elim (Option-cases (stored n blobs)) [
        | inr (b, f) ↦ rw (e, f) ((e, (b, refl, refl)), rest)
        | inl f ↦ absurd (false≢true (rw f at (h n (rw (eq_refl n) refl))))
      ]
    ]

listing_all :
    (blobs : Blobs) (p j : String) (d : Blobs)
    → starts_with j p ≡ true
    → stored j d ≢ none
    → is_listed j (listing blobs p d) ≡ true
listing_all blobs p j [] a h = absurd (h refl)
listing_all blobs p j ((n, body) ∷ d) a h = elim (Bool-cases (str_eq n j)) [
  | inl e ↦ rw ((eq_iff n j).0 e, a) (rw (eq_refl j) refl)
  | inr e ↦ elim (Bool-cases (starts_with n p)) [
    | inl f ↦ rw (f, e) (listing_all blobs p j d a (rw e at h))
    | inr f ↦ rw (f) (listing_all blobs p j d a (rw e at h))
  ]
]

answer-injective : {A : Type 0} (a b : A) → answer a ≡ answer b → a ≡ b
answer-injective a b e = cc

pub memory-IsLawful : IsLawful memory
memory-IsLawful = record {
  get-upload = λ n j body s e. refl;
  get-upload_failed = λ n j body s x e. inl (cc);
  get-delete = λ n j s e. stored-erase n j s;
  get-delete_failed = λ n j s x e. inl (cc);
  list-Listed =
      λ p s l e. rw (← answer-injective (listing s p s) l e) (listing-Listed s p s (λ n h. h));
  list_all = λ p j s l e a h. rw (← answer-injective (listing s p s) l e) (listing_all s p j s a h);
}

pub memory-IsReliable : IsReliable memory
memory-IsReliable = record {
  connected = refl;
  uploads = λ n body s. refl;
  deletes = λ n s. refl;
  lists = λ p s. (listing s p s, refl);
}
