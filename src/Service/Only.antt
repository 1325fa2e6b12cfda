-- ===== src/Service/Only.antt =====
-- Which calls an action makes. An action that makes only calls of a class keeps every property of
-- the history that those calls keep.
pub mod Rules
use parser_os_worker.Base.{
  Bool, Option, [], arith, false, if◌then◌else◌, maybe, none, some, suc, true, ℕ, ◌∷◌, ◌≡◌, ◌≤◌,
}
use parser_os_worker.Service.{
  Call, Event, Exc, History, Host, Reply, answer, did, failed, failure, replied,
}
use parser_os_worker.Service.Action.{
  Action, Proc, ask, attempt, catch, exit, finally, gets, iso_now, modify, pure, raise, ◌>>=◌,
}
use parser_os_worker.Service.Keeps.{
  Keeps, Keeps-ask, Keeps-attempt, Keeps-bind, Keeps-catch, Keeps-exit, Keeps-finally, Keeps-gets,
  Keeps-iso_now, Keeps-modify, Keeps-pure, Keeps-raise,
}

-- The property survives each call of the class, whether it comes back or raises.
abbrev pub Stable : (Call → Bool) → (History → Type 0) → Type 0
Stable p P = (c : Call) → p c ≡ true → (l : History) → P l → P (did c ∷ l) × P (failed c ∷ l)

pub record Only {ℓ} {A : Type ℓ} (p : Call → Bool) (m : Action A) : Type (ℓ ⊔ 1) where
  pub at : (P : History → Type 0) → Stable p P → Keeps (λ s. P s.log) m

module _ {ℓ} {A : Type ℓ} {p : Call → Bool} where
  pub Only-pure : (a : A) → Only p (pure a)
  Only-pure a = record { at = λ P h. Keeps-pure a }

  pub Only-raise : (e : Exc) → Only p (raise {A = A} e)
  Only-raise e = record { at = λ P h. Keeps-raise e }

  pub Only-exit : (n : ℕ) → Only p (exit {A = A} n)
  Only-exit n = record { at = λ P h. Keeps-exit n }

  pub Only-gets : (f : Proc → A) → Only p (gets f)
  Only-gets f = record { at = λ P h. Keeps-gets f }

  pub Only-if : (b : Bool) (m n : Action A) → Only p m → Only p n → Only p (if b then m else n)
  Only-if true m n km kn = km
  Only-if false m n km kn = kn

  pub Only-catch :
      (m : Action A) (h : Exc → Action A)
      → Only p m
      → ((e : Exc) → Only p (h e))
      → Only p (catch m h)
  Only-catch m h km kh = record { at = λ P st. Keeps-catch m h (km.at P st) (λ e. (kh e).at P st) }

  pub Only-finally :
      (m : Action A) (f : Action (Unit {0})) → Only p m → Only p f → Only p (finally m f)
  Only-finally m f km kf = record { at = λ P st. Keeps-finally m f (km.at P st) (kf.at P st) }

  pub Only-weaken :
      {q : Call → Bool} {m : Action A}
      → Only p m
      → ((c : Call) → p c ≡ true → q c ≡ true)
      → Only q m
  Only-weaken km sub = record { at = λ P st. km.at P (λ c h. st c (sub c h)) }

module _ {p : Call → Bool} where
  pub Only-attempt : (m : Action (Unit {0})) → Only p m → Only p (attempt m)
  Only-attempt m km = record { at = λ P st. Keeps-attempt m (km.at P st) }

  pub Only-modify : (f : Proc → Proc) → ((s : Proc) → (f s).log ≡ s.log) → Only p (modify f)
  Only-modify f same = record { at = λ P st. Keeps-modify f (λ s h. rw (same s) h) }

  pub Only-iso_now : (w : Host) → Only p (iso_now w)
  Only-iso_now w = record { at = λ P st. Keeps-iso_now w }

  pub Only-ask : (w : Host) (c : Call) → p c ≡ true → Only p (ask w c)
  Only-ask w c h = record {
    at = λ P st. Keeps-ask w c (λ s k. (st c h s.log k).0) (λ s k. (st c h s.log k).1);
  }

module _ {ℓ μ} {A : Type ℓ} {B : Type μ} {p : Call → Bool} where
  pub Only-bind :
      (m : Action A) (f : A → Action B) → Only p m → ((a : A) → Only p (f a)) → Only p (m >>= f)
  Only-bind m f km kf = record { at = λ P st. Keeps-bind m f (km.at P st) (λ a. (kf a).at P st) }

  pub Only-option :
      (o : Option A) (n : Action B) (f : A → Action B)
      → Only p n
      → ((a : A) → Only p (f a))
      → Only p (maybe o n f)
  Only-option none n f kn kf = kn
  Only-option (some a) n f kn kf = kf a

module _ {ℓ μ} {A : Type ℓ} {B : Type μ} {p : Call → Bool} where
  pub Only-replied :
      (r : Reply A) (h : Exc → Action B) (f : A → Action B)
      → ((e : Exc) → Only p (h e))
      → ((a : A) → Only p (f a))
      → Only p (replied r h f)
  Only-replied (answer a) h f kh kf = kf a
  Only-replied (failure e) h f kh kf = kh e

-- The number of events of a kind.
abbrev pub count : (Event → Bool) → History → ℕ
count f [] = 0
count f (e ∷ l) = if f e then suc (count f l) else count f l

-- The events of the kind are no calls of the class.
abbrev pub Misses : (Call → Bool) → (Event → Bool) → Type 0
Misses p f = (c : Call) → p c ≡ true → (f (did c) ≡ false) × (f (failed c) ≡ false)

-- An action of the class makes no event of the kind.
pub Only-count {ℓ} :
    {A : Type ℓ} {p : Call → Bool} {m : Action A} (f : Event → Bool) (n : ℕ)
    → Only p m
    → Misses p f
    → Keeps (λ s. count f s.log ≡ n) m
Only-count f n km miss =
    km.at (λ l. count f l ≡ n) (λ c h l e. (rw ((miss c h).0) e, rw ((miss c h).1) e))

-- No action takes an event back.
pub Only-grows {ℓ} :
    {A : Type ℓ} {p : Call → Bool} {m : Action A} (f : Event → Bool) (n : ℕ)
    → Only p m
    → Keeps (λ s. n ≤ count f s.log) m
Only-grows f n km = km.at (λ l. n ≤ count f l) (λ c h l e. (ground arith, ground arith))
