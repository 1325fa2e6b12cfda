-- ===== src/Service/Triples.antt =====
-- Partial correctness: from a state in `P`, an action that returns `a` ends in `Q a`, and one that
-- raises ends in `E`. Of an action that ends the process nothing is said.

use parser_os_worker.Base.{
  Bool, Option, ap, false, if◌then◌else◌, maybe, none, refl, some, true, ℕ, ◌≡◌,
}
use parser_os_worker.Service.{Exc}
use parser_os_worker.Service.Action.{
  Action, Outcome, Proc, catch, continue, exit, exited, handle, ok, pure, raised, ◌>>=◌,
}
use parser_os_worker.Service.Keeps.{Keeps}
use parser_os_worker.Service.Returns.{IsOk, Returns}

abbrev pub Ends {ℓ κ} :
    {A : Type ℓ} → (A → Proc → Type κ) → (Proc → Type κ) → Outcome A → Proc → Type κ
Ends Q E (ok a) s = Q a s
Ends Q E (raised e) s = E s
Ends Q E (exited n) s = Unit

pub record Triple {ℓ κ} {A : Type ℓ} (P : Proc → Type κ) (m : Action A) (Q : A → Proc → Type κ)
    (E : Proc → Type κ) : Type (ℓ ⊔ κ) where
  pub at : (s : Proc) → P s → Ends Q E (m s).0 (m s).1

-- The cases of the outcome behind the rules below.
module _ {ℓ κ} {A : Type ℓ} (Q : A → Proc → Type κ) (E F : Proc → Type κ) where
  total : (r : Outcome A) (s : Proc) → IsOk r → Ends Q F r s → Ends Q E r s
  total (ok a) s h q = q
  total (raised e) s h q = absurd h
  total (exited n) s h q = absurd h

  weakened :
      (R : A → Proc → Type κ) (r : Outcome A) (s : Proc)
      → ((a : A) (s : Proc) → R a s → Q a s)
      → ((s : Proc) → F s → E s)
      → Ends R F r s
      → Ends Q E r s
  weakened R (ok a) s f g h = f a s h
  weakened R (raised e) s f g h = g s h
  weakened R (exited n) s f g h = tt

  handled :
      (h : Exc → Action A)
      → ((e : Exc) → Triple F (h e) Q E)
      → (r : Outcome A) (s : Proc) → Ends Q F r s
      → Ends Q E (handle r h s).0 (handle r h s).1
  handled h th (ok a) s p = p
  handled h th (raised e) s p = (th e).at s p
  handled h th (exited n) s p = tt

  continued {μ} :
      {B : Type μ} (R : B → Proc → Type κ) (f : B → Action A)
      → ((b : B) → Triple (R b) (f b) Q E)
      → (r : Outcome B) (s : Proc) → Ends R E r s
      → Ends Q E (continue r f s).0 (continue r f s).1
  continued R f tf (ok b) s p = (tf b).at s p
  continued R f tf (raised e) s p = p
  continued R f tf (exited n) s p = tt

kept {ℓ κ} : {A : Type ℓ} (P : Proc → Type κ) (r : Outcome A) (s : Proc) → P s → Ends (λ _. P) P r s
kept P (ok a) s p = p
kept P (raised e) s p = p
kept P (exited n) s p = tt

module _ {ℓ κ} {A : Type ℓ} {P : Proc → Type κ} {Q : A → Proc → Type κ} {E : Proc → Type κ} where
  pub Triple-pure : (a : A) → ((s : Proc) → P s → Q a s) → Triple P (pure a) Q E
  unfolding pure
  Triple-pure a h = record { at = h }

  pub Triple-if :
      (b : Bool) (m n : Action A)
      → (b ≡ true → Triple P m Q E)
      → (b ≡ false → Triple P n Q E)
      → Triple P (if b then m else n) Q E
  Triple-if true m n km kn = km refl
  Triple-if false m n km kn = kn refl

  -- what always returns never raises
  pub Triple-total :
      {F : Proc → Type κ} (m : Action A) → Returns m → Triple P m Q F → Triple P m Q E
  Triple-total {F} m r t = record { at = λ s p. total Q E F (m s).0 (m s).1 (r.at s) (t.at s p) }

  pub Triple-weaken :
      {R : A → Proc → Type κ} {F : Proc → Type κ} (m : Action A)
      → Triple P m R F
      → ((a : A) (s : Proc) → R a s → Q a s)
      → ((s : Proc) → F s → E s)
      → Triple P m Q E
  Triple-weaken {R} {F} m t f g = record {
    at = λ s p. weakened Q E F R (m s).0 (m s).1 f g (t.at s p);
  }

  pub Triple-catch :
      {F : Proc → Type κ} (m : Action A) (h : Exc → Action A)
      → Triple P m Q F
      → ((e : Exc) → Triple F (h e) Q E)
      → Triple P (catch m h) Q E
  unfolding catch
  Triple-catch {F} m h tm th = record {
    at = λ s p. let (r, s') = m s in handled Q E F h th r s' (tm.at s p);
  }

module _ {ℓ κ} {A : Type ℓ} {P : Proc → Type κ} where
  pub Triple-keeps : (m : Action A) → Keeps P m → Triple P m (λ _. P) P
  Triple-keeps m k = record { at = λ s p. kept P (m s).0 (m s).1 (k.at s p) }

module _ {ℓ μ κ} {A : Type ℓ} {B : Type μ} {P : Proc → Type κ} {R : A → Proc → Type κ}
    {Q : B → Proc → Type κ} {E : Proc → Type κ} where
  pub Triple-bind :
      (m : Action A) (f : A → Action B)
      → Triple P m R E
      → ((a : A) → Triple (R a) (f a) Q E)
      → Triple P (m >>= f) Q E
  unfolding ◌>>=◌
  Triple-bind m f tm tf = record {
    at = λ s p. let (r, s') = m s in continued Q E E R f tf r s' (tm.at s p);
  }

module _ {ℓ μ κ} {A : Type ℓ} {B : Type μ} {P : Proc → Type κ} {Q : B → Proc → Type κ}
    {E : Proc → Type κ} where
  pub Triple-maybe :
      (o : Option A) (n : Action B) (f : A → Action B)
      → Triple P n Q E
      → ((a : A) → Triple P (f a) Q E)
      → Triple P (maybe o n f) Q E
  Triple-maybe none n f tn tf = tn
  Triple-maybe (some a) n f tn tf = tf a

module _ {ℓ κ} {A : Type ℓ} {P : Proc → Type κ} {Q : A → Proc → Type κ} {E : Proc → Type κ} where
  -- of an action that ends the process nothing is said
  pub Triple-exit : (n : ℕ) → Triple P (exit n) Q E
  unfolding exit
  Triple-exit n = record { at = λ s p. tt }

-- The reading of a triple at a run that returned.
pub Triple-ok {ℓ κ} :
    {A : Type ℓ} {P : Proc → Type κ} {Q : A → Proc → Type κ} {E : Proc → Type κ} (m : Action A)
    → Triple P m Q E
    → (s s' : Proc) (a : A) → P s
    → m s ≡ (ok a, s')
    → Q a s'
Triple-ok {Q} {E} m t s s' a p e = rw (ap (λ r. r.0) e, ap (λ r. r.1) e) at (t.at s p)

-- The same at a run that raised.
pub Triple-raised {ℓ κ} :
    {A : Type ℓ} {P : Proc → Type κ} {Q : A → Proc → Type κ} {E : Proc → Type κ} (m : Action A)
    → Triple P m Q E
    → (s s' : Proc) (x : Exc) → P s
    → m s ≡ (raised x, s')
    → E s'
Triple-raised {Q} {E} m t s s' x p e = rw (ap (λ r. r.0) e, ap (λ r. r.1) e) at (t.at s p)

-- no condition at all
abbrev pub Any : Proc → Type 0
Any s = Unit

any_end : {A : Type 0} (r : Outcome A) (s : Proc) → Ends (λ _. Any) Any r s
any_end (ok a) s = tt
any_end (raised e) s = tt
any_end (exited n) s = tt

-- of any action nothing needs to be shown
pub triple_any : {A : Type 0} {P : Proc → Type 0} (m : Action A) → Triple P m (λ _. Any) Any
triple_any m = record { at = λ s p. any_end (m s).0 (m s).1 }
