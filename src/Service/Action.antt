-- ===== src/Service/Action.antt =====
-- A function of main.py that calls services: it takes the state of the process and ends by
-- returning, by raising, or by `os._exit`. What was done before stays done.
use parser_os_worker.Base.{
  Bool, Option, String, false, inl, inr, is_some, none, not, refl, some, ℕ, ◌||◌, ◌∷◌, ◌≡◌, ◌⊎◌,
}
use parser_os_worker.Json.{Fields, Json, null, truthy}
use parser_os_worker.Service.{
  Answer, Call, Exc, History, Host, Message, Reply, SimpleJob, answer, did, failed, failure,
}

pub data Outcome {ℓ} (A : Type ℓ) : Type ℓ where
  ok : A → Outcome A
  raised : Exc → Outcome A
  exited : ℕ → Outcome A

-- `_INFLIGHT`: what a termination has to hand back. `held` stands for the keys queue_client, msg
-- and blob_service, which are set together.
pub record Inflight : Type 0 where
  pub held : Option (String × Message)
  pub job : Option SimpleJob
  pub renewer : Bool
  pub keepalive : Json
  pub progress_stop : Bool

abbrev pub no_inflight : Inflight
no_inflight = record {
  held = none;
  job = none;
  renewer = false;
  keepalive = null;
  progress_stop = false;
}

-- `_INFLIGHT` is empty.
abbrev pub is_idle : Inflight → Bool
is_idle i =
    not (is_some i.held || is_some i.job || i.renewer || truthy i.keepalive || i.progress_stop)

-- The process: the calls that it has made, the pop receipt of the message object that it holds
-- (the lease renewer rebinds it), `_INFLIGHT`, whether `_KEEPALIVE_CLIENT` holds a client, and
-- whether `_RECOVERY_DONE` is set. `notes` is the dict that fetch_ml.py writes as its receipt.
pub record Proc : Type 0 where
  pub log : History
  pub receipt : Option String
  pub inflight : Inflight
  pub keepalive_client : Bool
  pub recovery_done : Bool
  pub notes : Fields

abbrev pub Action {ℓ} : Type ℓ → Type ℓ
Action A = Proc → Outcome A × Proc

module _ {ℓ} {A : Type ℓ} where
  unfoldable pub pure : A → Action A
  pure a s = (ok a, s)

  unfoldable pub raise : Exc → Action A
  raise e s = (raised e, s)

  -- os._exit(code)
  unfoldable pub exit : ℕ → Action A
  exit n s = (exited n, s)

  unfoldable pub gets : (Proc → A) → Action A
  gets f s = (ok (f s), s)

unfoldable pub modify : (Proc → Proc) → Action (Unit {0})
modify f s = (ok tt, f s)

module _ {ℓ κ} {A : Type ℓ} {B : Type κ} where
  abbrev pub continue : Outcome A → (A → Action B) → Action B
  continue (ok a) f s = f a s
  continue (raised e) f s = (raised e, s)
  continue (exited n) f s = (exited n, s)

  infixl 10 ◌>>=◌
  -- opening this opens `pure`, `raise`, `exit`, `gets` and `modify` too
  unfoldable pub ◌>>=◌ : Action A → (A → Action B) → Action B
  unfolding pure raise exit gets modify
  ◌>>=◌ m f s = let (r, s') = m s in continue r f s'

infixl 10 ◌>>◌
abbrev pub ◌>>◌ {ℓ κ} : {A : Type ℓ} {B : Type κ} → Action A → Action B → Action B
m >> n = m >>= λ _. n

module _ {ℓ} {A : Type ℓ} where
  abbrev pub handle : Outcome A → (Exc → Action A) → Action A
  handle (ok a) h s = (ok a, s)
  handle (raised e) h s = h e s
  handle (exited n) h s = (exited n, s)

  -- try: m  except Exception as e: h e
  unfoldable pub catch : Action A → (Exc → Action A) → Action A
  catch m h s = let (r, s') = m s in handle r h s'

  abbrev pub after : Outcome A → Outcome (Unit {0}) → Outcome A
  after r (ok _) = r
  after r (raised e) = raised e
  after r (exited n) = exited n

  abbrev pub conclude : Outcome A → Action (Unit {0}) → Action A
  conclude (exited n) f s = (exited n, s)
  conclude r f s = let (q, s') = f s in (after r q, s')

  -- try: m  finally: f
  unfoldable pub finally : Action A → Action (Unit {0}) → Action A
  finally m f s = let (r, s') = m s in conclude r f s'

-- try: m  except Exception: pass
unfoldable pub attempt : Action (Unit {0}) → Action (Unit {0})
unfolding catch pure
attempt m = catch m (λ _. pure tt)

abbrev pub settle : (c : Call) → Proc → Reply (Answer c) → Outcome (Answer c) × Proc
settle c s (answer a) = (ok a, record s { log = did c ∷ s.log })
settle c s (failure e) = (raised e, record s { log = failed c ∷ s.log })

module _ (w : Host) where
  -- A call of a service.
  unfoldable pub ask : (c : Call) → Action (Answer c)
  ask c s = settle c s (w.reply s.log c)

  -- `_iso_now`
  unfoldable pub iso_now : Action String
  iso_now s = (ok (w.now s.log), s)

-- The two cases of a reply, with an equation.
pub Reply-cases {ℓ} :
    {A : Type ℓ} (r : Reply A) → ((a : A) × (r ≡ answer a)) ⊎ ((e : Exc) × (r ≡ failure e))
Reply-cases (answer a) = inl (a, refl)
Reply-cases (failure e) = inr (e, refl)

pub Option-cases {ℓ} : {A : Type ℓ} (o : Option A) → (o ≡ none) ⊎ ((a : A) × (o ≡ some a))
Option-cases none = inl refl
Option-cases (some a) = inr (a, refl)
