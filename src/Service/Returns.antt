-- ===== src/Service/Returns.antt =====
-- Actions that always return, whatever the services answer, and actions that may raise but never
-- end the process.
pub mod Rules
use parser_os_worker.Base.{Bool, Option, false, if◌then◌else◌, maybe, none, refl, some, true, ◌≡◌}
use parser_os_worker.Service.{Answer, Call, Exc, Host, Reply, answer, failure, replied}
use parser_os_worker.Service.Action.{
  Action, Outcome, Proc, ask, attempt, catch, continue, exited, gets, handle, iso_now, modify, ok,
  pure, raise, raised, settle, ◌>>=◌,
}

abbrev pub IsOk {ℓ} : {A : Type ℓ} → Outcome A → Type 0
IsOk (ok a) = Unit
IsOk (raised e) = ⊥
IsOk (exited n) = ⊥

abbrev pub IsNotExit {ℓ} : {A : Type ℓ} → Outcome A → Type 0
IsNotExit (ok a) = Unit
IsNotExit (raised e) = Unit
IsNotExit (exited n) = ⊥

pub record Returns {ℓ} {A : Type ℓ} (m : Action A) : Type ℓ where
  pub at : (s : Proc) → IsOk (m s).0

pub record Stays {ℓ} {A : Type ℓ} (m : Action A) : Type ℓ where
  pub at : (s : Proc) → IsNotExit (m s).0

module _ {ℓ} {A : Type ℓ} where
  pub Returns-pure : (a : A) → Returns (pure a)
  unfolding pure
  Returns-pure a = record { at = λ s. tt }

  pub Returns-gets : (f : Proc → A) → Returns (gets f)
  unfolding gets
  Returns-gets f = record { at = λ s. tt }

  pub Returns-if :
      (b : Bool) (m n : Action A) → Returns m → Returns n → Returns (if b then m else n)
  Returns-if true m n km kn = km
  Returns-if false m n km kn = kn

  stays_of_ok : (r : Outcome A) → IsOk r → IsNotExit r
  stays_of_ok (ok a) h = tt
  stays_of_ok (raised e) h = tt
  stays_of_ok (exited n) h = h

  pub Stays-of_Returns : (m : Action A) → Returns m → Stays m
  Stays-of_Returns m h = record { at = λ s. stays_of_ok (m s).0 (h.at s) }

  pub Stays-pure : (a : A) → Stays (pure a)
  unfolding pure
  Stays-pure a = record { at = λ s. tt }

  pub Stays-raise : (e : Exc) → Stays (raise {A = A} e)
  unfolding raise
  Stays-raise e = record { at = λ s. tt }

  pub Stays-gets : (f : Proc → A) → Stays (gets f)
  unfolding gets
  Stays-gets f = record { at = λ s. tt }

  pub Stays-if : (b : Bool) (m n : Action A) → Stays m → Stays n → Stays (if b then m else n)
  Stays-if true m n km kn = km
  Stays-if false m n km kn = kn

  handled-IsOk :
      (r : Outcome A) (h : Exc → Action A) (s : Proc)
      → IsNotExit r
      → ((e : Exc) → Returns (h e))
      → IsOk (handle r h s).0
  handled-IsOk (ok a) h s p kh = tt
  handled-IsOk (raised e) h s p kh = (kh e).at s
  handled-IsOk (exited n) h s p kh = p

  handled-Stays :
      (r : Outcome A) (h : Exc → Action A) (s : Proc)
      → IsNotExit r
      → ((e : Exc) → Stays (h e))
      → IsNotExit (handle r h s).0
  handled-Stays (ok a) h s p kh = tt
  handled-Stays (raised e) h s p kh = (kh e).at s
  handled-Stays (exited n) h s p kh = p

  -- a handler that returns makes the whole block return
  pub Returns-catch :
      (m : Action A) (h : Exc → Action A)
      → Stays m
      → ((e : Exc) → Returns (h e))
      → Returns (catch m h)
  unfolding catch
  Returns-catch m h km kh = record {
    at = λ s. let (r, s') = m s in handled-IsOk r h s' (km.at s) kh;
  }

  pub Stays-catch :
      (m : Action A) (h : Exc → Action A) → Stays m → ((e : Exc) → Stays (h e)) → Stays (catch m h)
  unfolding catch
  Stays-catch m h km kh = record {
    at = λ s. let (r, s') = m s in handled-Stays r h s' (km.at s) kh;
  }

pub Returns-attempt : (m : Action (Unit {0})) → Stays m → Returns (attempt m)
unfolding attempt
Returns-attempt m km = Returns-catch m (λ _. pure tt) km (λ _. Returns-pure tt)

pub Stays-attempt : (m : Action (Unit {0})) → Stays m → Stays (attempt m)
Stays-attempt m km = Stays-of_Returns (attempt m) (Returns-attempt m km)

pub Returns-modify : (f : Proc → Proc) → Returns (modify f)
unfolding modify
Returns-modify f = record { at = λ s. tt }

pub Stays-modify : (f : Proc → Proc) → Stays (modify f)
unfolding modify
Stays-modify f = record { at = λ s. tt }

pub Returns-iso_now : (w : Host) → Returns (iso_now w)
unfolding iso_now
Returns-iso_now w = record { at = λ s. tt }

pub Stays-iso_now : (w : Host) → Stays (iso_now w)
unfolding iso_now
Stays-iso_now w = record { at = λ s. tt }

settled_stays : (c : Call) (s : Proc) (r : Reply (Answer c)) → IsNotExit (settle c s r).0
settled_stays c s (answer a) = tt
settled_stays c s (failure e) = tt

pub Stays-ask : (w : Host) (c : Call) → Stays (ask w c)
unfolding ask
Stays-ask w c = record { at = λ s. settled_stays c s (w.reply s.log c) }

module _ {ℓ μ} {A : Type ℓ} {B : Type μ} where
  continued-IsOk :
      (r : Outcome A) (f : A → Action B) (s : Proc)
      → IsOk r
      → ((a : A) → Returns (f a))
      → IsOk (continue r f s).0
  continued-IsOk (ok a) f s p kf = (kf a).at s
  continued-IsOk (raised e) f s p kf = absurd p
  continued-IsOk (exited n) f s p kf = absurd p

  continued-Stays :
      (r : Outcome A) (f : A → Action B) (s : Proc)
      → IsNotExit r
      → ((a : A) → Stays (f a))
      → IsNotExit (continue r f s).0
  continued-Stays (ok a) f s p kf = (kf a).at s
  continued-Stays (raised e) f s p kf = tt
  continued-Stays (exited n) f s p kf = absurd p

  pub Returns-bind :
      (m : Action A) (f : A → Action B) → Returns m → ((a : A) → Returns (f a)) → Returns (m >>= f)
  unfolding ◌>>=◌
  Returns-bind m f km kf = record {
    at = λ s. let (r, s') = m s in continued-IsOk r f s' (km.at s) kf;
  }

  pub Stays-bind :
      (m : Action A) (f : A → Action B) → Stays m → ((a : A) → Stays (f a)) → Stays (m >>= f)
  unfolding ◌>>=◌
  Stays-bind m f km kf = record {
    at = λ s. let (r, s') = m s in continued-Stays r f s' (km.at s) kf;
  }

  pub Returns-option :
      (o : Option A) (n : Action B) (f : A → Action B)
      → Returns n
      → ((a : A) → Returns (f a))
      → Returns (maybe o n f)
  Returns-option none n f kn kf = kn
  Returns-option (some a) n f kn kf = kf a

  pub Stays-option :
      (o : Option A) (n : Action B) (f : A → Action B)
      → Stays n
      → ((a : A) → Stays (f a))
      → Stays (maybe o n f)
  Stays-option none n f kn kf = kn
  Stays-option (some a) n f kn kf = kf a

module _ {ℓ μ} {A : Type ℓ} {B : Type μ} where
  pub Stays-replied :
      (r : Reply A) (h : Exc → Action B) (f : A → Action B)
      → ((e : Exc) → Stays (h e))
      → ((a : A) → Stays (f a))
      → Stays (replied r h f)
  Stays-replied (answer a) h f kh kf = kf a
  Stays-replied (failure e) h f kh kf = kh e

pub IsOk-tt : (o : Outcome (Unit {0})) → IsOk o → o ≡ ok tt
IsOk-tt (ok tt) h = refl
IsOk-tt (raised x) h = absurd h
IsOk-tt (exited n) h = absurd h
