-- ===== src/Service/Keeps.antt =====
-- Invariants of the process, one rule for each way to build an action. They speak of every way in
-- which an action can end.

use parser_os_worker.Base.{
  Bool, Option, false, if◌then◌else◌, keep, maybe, none, some, true, ℕ, ◌∷◌,
}
use parser_os_worker.Service.{Answer, Call, Exc, Host, Reply, answer, did, failed, failure}
use parser_os_worker.Service.Action.{
  Action, Outcome, Proc, ask, attempt, catch, conclude, continue, exit, exited, finally, gets,
  handle, iso_now, modify, ok, pure, raise, raised, settle, ◌>>=◌,
}

pub record Keeps {ℓ κ} {A : Type ℓ} (P : Proc → Type κ) (m : Action A) : Type (ℓ ⊔ κ) where
  pub at : (s : Proc) → P s → P (m s).1

module _ {ℓ κ} {A : Type ℓ} {P : Proc → Type κ} where
  pub Keeps-pure : (a : A) → Keeps P (pure a)
  unfolding pure
  Keeps-pure a = record { at = λ s h. h }

  pub Keeps-raise : (e : Exc) → Keeps P (raise {A = A} e)
  unfolding raise
  Keeps-raise e = record { at = λ s h. h }

  pub Keeps-exit : (n : ℕ) → Keeps P (exit {A = A} n)
  unfolding exit
  Keeps-exit n = record { at = λ s h. h }

  pub Keeps-gets : (f : Proc → A) → Keeps P (gets f)
  unfolding gets
  Keeps-gets f = record { at = λ s h. h }

  pub Keeps-if : (b : Bool) (m n : Action A) → Keeps P m → Keeps P n → Keeps P (if b then m else n)
  Keeps-if true m n km kn = km
  Keeps-if false m n km kn = kn

  handled :
      (r : Outcome A) (h : Exc → Action A) (s : Proc)
      → ((e : Exc) → Keeps P (h e))
      → P s
      → P (handle r h s).1
  handled (ok a) h s kh p = p
  handled (raised e) h s kh p = (kh e).at s p
  handled (exited n) h s kh p = p

  pub Keeps-catch :
      (m : Action A) (h : Exc → Action A)
      → Keeps P m
      → ((e : Exc) → Keeps P (h e))
      → Keeps P (catch m h)
  unfolding catch
  Keeps-catch m h km kh = record { at = λ s p. let (r, s') = m s in handled r h s' kh (km.at s p) }

  concluded :
      (r : Outcome A) (f : Action (Unit {0})) (s : Proc) → Keeps P f → P s → P (conclude r f s).1
  concluded (ok a) f s kf p = kf.at s p
  concluded (raised e) f s kf p = kf.at s p
  concluded (exited n) f s kf p = p

  pub Keeps-finally :
      (m : Action A) (f : Action (Unit {0})) → Keeps P m → Keeps P f → Keeps P (finally m f)
  unfolding finally
  Keeps-finally m f km kf = record {
    at = λ s p. let (r, s') = m s in concluded r f s' kf (km.at s p);
  }

settled {κ} :
    (Q : Proc → Type κ) (c : Call) (s : Proc) (r : Reply (Answer c))
    → Q (record s { log = did c ∷ s.log })
    → Q (record s { log = failed c ∷ s.log })
    → Q (settle c s r).1
settled Q c s (answer a) p q = p
settled Q c s (failure e) p q = q

module _ {κ} {P : Proc → Type κ} where
  pub Keeps-attempt : (m : Action (Unit {0})) → Keeps P m → Keeps P (attempt m)
  unfolding attempt
  Keeps-attempt m km = Keeps-catch m (λ _. pure tt) km (λ _. Keeps-pure tt)

  pub Keeps-modify : (f : Proc → Proc) → ((s : Proc) → P s → P (f s)) → Keeps P (modify f)
  unfolding modify
  Keeps-modify f keep = record { at = keep }

  pub Keeps-iso_now : (w : Host) → Keeps P (iso_now w)
  unfolding iso_now
  Keeps-iso_now w = record { at = λ s h. h }

  -- a call, whatever comes back
  pub Keeps-ask :
      (w : Host) (c : Call)
      → ((s : Proc) → P s → P (record s { log = did c ∷ s.log }))
      → ((s : Proc) → P s → P (record s { log = failed c ∷ s.log }))
      → Keeps P (ask w c)
  unfolding ask
  Keeps-ask w c good bad = record {
    at = λ s p. settled P c s (w.reply s.log c) (good s p) (bad s p);
  }

module _ {ℓ μ κ} {A : Type ℓ} {B : Type μ} {P : Proc → Type κ} where
  continued :
      (r : Outcome A) (f : A → Action B) (s : Proc)
      → ((a : A) → Keeps P (f a))
      → P s
      → P (continue r f s).1
  continued (ok a) f s kf p = (kf a).at s p
  continued (raised e) f s kf p = p
  continued (exited n) f s kf p = p

  pub Keeps-bind :
      (m : Action A) (f : A → Action B) → Keeps P m → ((a : A) → Keeps P (f a)) → Keeps P (m >>= f)
  unfolding ◌>>=◌
  Keeps-bind m f km kf = record { at = λ s p. let (r, s') = m s in continued r f s' kf (km.at s p) }

  pub Keeps-option :
      (o : Option A) (n : Action B) (f : A → Action B)
      → Keeps P n
      → ((a : A) → Keeps P (f a))
      → Keeps P (maybe o n f)
  Keeps-option none n f kn kf = kn
  Keeps-option (some a) n f kn kf = kf a

pub ruleset keeps_rules = (
  Keeps-pure, Keeps-raise, Keeps-exit, Keeps-gets, Keeps-if, Keeps-catch, Keeps-finally,
  Keeps-attempt, Keeps-iso_now, Keeps-bind, Keeps-option,
)
