-- ===== src/FetchMl/Script/Account.antt =====
-- fetch_ml.py: each configured path was found on the disk, or is listed as missing or as having no
-- source.
use parser_os_worker.Base.{
  Bool, Bool-cases, List, String, [], ap, arith, eq_iff, eq_refl, false, false≢true, if◌then◌else◌,
  inl, inr, keep, refl, str_eq, sym, true, ◌∙◌, ◌∷◌, ◌≡◌, ◌⊎◌,
}
use parser_os_worker.Dedup.{sorted}
use parser_os_worker.Dedup.Sorted.{any-sorted}
use parser_os_worker.FetchMl.{Paths, among, is_nil, keys, without}
use parser_os_worker.FetchMl.Required.{missing_of, no_source_of}
use parser_os_worker.FetchMl.Script.{absent_of}
use parser_os_worker.Json.{Fields, Json}
use parser_os_worker.Service.{Event, History, Host, answer, fetch, path_exists}
use parser_os_worker.Service.Action.{Proc, Reply-cases, ask}
use parser_os_worker.Service.Triples.{Any, Triple, Triple-bind, Triple-pure}

abbrev In : String × String → Paths → Type 0
In e [] = ⊥
In e (x ∷ l) = (e ≡ x) ⊎ In e l

among-keys : (k p : String) (l : Paths) → In (k, p) l → among (keys l) k ≡ true
unfolding among
among-keys k p [] h = absurd h
among-keys k p (x ∷ l) (inl e) = rw (← ap (λ e. e.0) e) (rw (eq_refl k) refl)
among-keys k p ((j, q) ∷ l) (inr h) = ground (arith, among-keys k p l h)

among-without :
    (k : String) (out l : List String)
    → among l k ≡ true
    → among out k ≡ false
    → among (without out l) k ≡ true
unfolding among without
among-without k out [] h g = cc
among-without k out (j ∷ l) h g = elim (Bool-cases (str_eq k j)) [
  | inl e ↦ rw (rw ((eq_iff k j).0 e) at g) (rw e refl)
  | inr e ↦ elim (Bool-cases (among out j)) [
    | inl f ↦ rw f (among-without k out l (rw e at h) g)
    | inr f ↦ rw f (rw e (among-without k out l (rw e at h) g))
  ]
]

is_nil-among : (k : String) (l : List String) → among l k ≡ true → is_nil l ≡ false
unfolding among
is_nil-among k [] h = cc
is_nil-among k (j ∷ l) h = refl

among-sorted : (k : String) (l : List String) → among (sorted l) k ≡ among l k
unfolding among
among-sorted k l = any-sorted (str_eq k) l

module _ (w : Host) (env : Paths) (real_path : String → String) (clock : History → Json) where
  -- the path was found on the disk
  abbrev pub Found : String → Type 0
  Found p = (h : History) × (w.reply h (fetch (path_exists p)) ≡ answer true)

  -- each path was found, or is in the second list
  abbrev pub Accounted : Paths → Paths → Type 0
  Accounted [] absent = Unit
  Accounted ((k, p) ∷ rest) absent = (Found p ⊎ In (k, p) absent) × Accounted rest absent

  -- each path was found, or its key is in the list
  abbrev pub Reported : Paths → List String → Type 0
  Reported [] ns = Unit
  Reported ((k, p) ∷ rest) ns = (Found p ⊎ (among ns k ≡ true)) × Reported rest ns

  widen :
      (l : Paths) (e : String × String) (absent : Paths)
      → Accounted l absent
      → Accounted l (e ∷ absent)
  widen [] e absent a = tt
  widen ((k, p) ∷ l) e absent (inl f, a) = (inl f, widen l e absent a)
  widen ((k, p) ∷ l) e absent (inr h, a) = (inr (inr h), widen l e absent a)

  counted :
      (k p : String) (l more : Paths) (h : History) (there : Bool)
      → w.reply h (fetch (path_exists p)) ≡ answer there
      → Accounted l more
      → Accounted ((k, p) ∷ l) (if there then more else (k, p) ∷ more)
  counted k p l more h true e a = (inl (h, e), a)
  counted k p l more h false e a = (inr (inl refl), widen l (k, p) more a)

  exists_triple :
      (P : Proc → Type 0) (p : String)
      → ((s : Proc) (e : Event) → P s → P (record s { log = e ∷ s.log }))
      → Triple P
          (ask w (fetch (path_exists p)))
          (λ there s. P s × ((h : History) × (w.reply h (fetch (path_exists p)) ≡ answer there)))
          Any
  unfolding ask
  exists_triple P p keep = record {
    at = λ s a. elim (Reply-cases (w.reply s.log (fetch (path_exists p)))) [
      | inl (there, e) ↦ rw e (keep s _ a, (s.log, e))
      | inr (x, e) ↦ rw e tt
    ];
  }

  pub absent_triple :
      (P : Fields → Type 0) (l : Paths)
      → Triple
          (λ s. P s.notes)
          (absent_of w env real_path clock l)
          (λ absent s. P s.notes × Accounted l absent)
          Any
  unfolding absent_of
  absent_triple P [] = Triple-pure [] (λ s p. (p, tt))
  absent_triple P ((k, p) ∷ l) =
      Triple-bind _ _ (exists_triple (λ s. P s.notes) p (λ s e a. a)) λ there. record {
        at = λ s (a, (h, e)).
            (Triple-bind _ _ (absent_triple P l)
                λ more. Triple-pure _ (λ s (a, c). (a, counted k p l more h there e c))).at
              s a;
      }

  -- what is not in the list of the missing has no source
  pub all-Reported :
      (roots : List String) (absent l : Paths)
      → is_nil (missing_of env real_path roots absent) ≡ true
      → Accounted l absent
      → Reported l (no_source_of env real_path roots absent)
  unfolding missing_of
  all-Reported roots absent [] h a = tt
  all-Reported roots absent ((k, p) ∷ l) h (inl f, a) = (inl f, all-Reported roots absent l h a)
  all-Reported roots absent ((k, p) ∷ l) h (inr i, a) =
      let ns = no_source_of env real_path roots absent in
      (
        elim (Bool-cases (among ns k)) [
          | inl e ↦ inr e
          | inr e ↦ absurd (
              false≢true (
                sym (
                  is_nil-among k _ (
                    among-sorted k (without ns (keys absent))
                    ∙ among-without k ns (keys absent) (among-keys k p absent i) e))
                ∙ h))
        ],
        all-Reported roots absent l h a,
      )
