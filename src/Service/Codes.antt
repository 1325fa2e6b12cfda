-- ===== src/Service/Codes.antt =====
-- Actions that end the process, where they do, with one exit code.
use parser_os_worker.Base.{Bool, false, if◌then◌else◌, refl, true, ℕ, ◌≡◌}
use parser_os_worker.Service.{Exc}
use parser_os_worker.Service.Action.{
  Action, Outcome, Proc, catch, continue, exit, exited, handle, ok, raised, ◌>>=◌,
}
use parser_os_worker.Service.Returns.{IsNotExit, Stays}

abbrev pub ExitIs {ℓ} : {A : Type ℓ} → ℕ → Outcome A → Type 0
ExitIs c (ok a) = Unit
ExitIs c (raised e) = Unit
ExitIs c (exited n) = n ≡ c

pub record Codes {ℓ} {A : Type ℓ} (c : ℕ) (m : Action A) : Type ℓ where
  pub at : (s : Proc) → ExitIs c (m s).0

module _ {ℓ} {A : Type ℓ} (c : ℕ) where
  code_of_stay : (r : Outcome A) → IsNotExit r → ExitIs c r
  code_of_stay (ok a) h = tt
  code_of_stay (raised e) h = tt
  code_of_stay (exited n) h = absurd h

  pub Codes-of_Stays : (m : Action A) → Stays m → Codes c m
  Codes-of_Stays m h = record { at = λ s. code_of_stay (m s).0 (h.at s) }

  pub Codes-exit : Codes c (exit {A = A} c)
  unfolding exit
  Codes-exit = record { at = λ s. refl }

  pub Codes-if : (b : Bool) (m n : Action A) → Codes c m → Codes c n → Codes c (if b then m else n)
  Codes-if true m n km kn = km
  Codes-if false m n km kn = kn

  handled :
      (r : Outcome A) (h : Exc → Action A) (s : Proc)
      → ExitIs c r
      → ((e : Exc) → Codes c (h e))
      → ExitIs c (handle r h s).0
  handled (ok a) h s p k = tt
  handled (raised e) h s p k = (k e).at s
  handled (exited n) h s p k = p

  pub Codes-catch :
      (m : Action A) (h : Exc → Action A)
      → Codes c m
      → ((e : Exc) → Codes c (h e))
      → Codes c (catch m h)
  unfolding catch
  Codes-catch m h km kh = record { at = λ s. let (r, s') = m s in handled r h s' (km.at s) kh }

module _ {ℓ μ} {A : Type ℓ} {B : Type μ} (c : ℕ) where
  continued :
      (r : Outcome A) (f : A → Action B) (s : Proc)
      → ExitIs c r
      → ((a : A) → Codes c (f a))
      → ExitIs c (continue r f s).0
  continued (ok a) f s p k = (k a).at s
  continued (raised e) f s p k = tt
  continued (exited n) f s p k = p

  pub Codes-bind :
      (m : Action A) (f : A → Action B) → Codes c m → ((a : A) → Codes c (f a)) → Codes c (m >>= f)
  unfolding ◌>>=◌
  Codes-bind m f km kf = record { at = λ s. let (r, s') = m s in continued r f s' (km.at s) kf }
