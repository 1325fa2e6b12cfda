-- ===== src/Service/Exits.antt =====
-- Actions that end the process whatever the services answer.

use parser_os_worker.Base.{refl, ℕ, ◌≡◌}
use parser_os_worker.Service.Action.{
  Action, Outcome, Proc, continue, exit, exited, ok, raised, ◌>>=◌,
}
use parser_os_worker.Service.Returns.{IsOk, Returns}
use parser_os_worker.Service.Returns.Rules.{returns_rules}

pub record Exits {ℓ} {A : Type ℓ} (n : ℕ) (m : Action A) : Type ℓ where
  pub at : (s : Proc) → (m s).0 ≡ exited n

module _ {ℓ} {A : Type ℓ} where
  pub Exits-exit : (n : ℕ) → Exits n (exit {A = A} n)
  unfolding exit
  Exits-exit n = record { at = λ s. refl }

module _ {ℓ μ} {A : Type ℓ} {B : Type μ} where
  continued :
      (n : ℕ) (r : Outcome A) (f : A → Action B) (s : Proc)
      → IsOk r
      → ((a : A) → Exits n (f a))
      → (continue r f s).0 ≡ exited n
  continued n (ok a) f s h k = (k a).at s
  continued n (raised e) f s h k = absurd h
  continued n (exited m) f s h k = absurd h

  pub Exits-bind :
      (n : ℕ) (m : Action A) (f : A → Action B)
      → Returns m
      → ((a : A) → Exits n (f a))
      → Exits n (m >>= f)
  unfolding ◌>>=◌
  Exits-bind n m f r k = record { at = λ s. let (o, s') = m s in continued n o f s' (r.at s) k }

pub ruleset exits_rules = (Exits-exit, Exits-bind, returns_rules)
