-- ===== src/FetchMl/Quiet.antt =====
-- Actions that neither end the script nor touch its receipt.
use parser_os_worker.Base.{Bool, String, false, if◌then◌else◌, refl, subst, sym, true, ◌∙◌, ◌≡◌}
use parser_os_worker.Json.{Fields, Json}
use parser_os_worker.Service.{
  Answer, Call, Exc, Host, Reply, answer, connect_artifacts, extract_all, failure, fetch,
  fetch_artifact_to, file_size, list_artifacts, list_dir, make_dir, open_tar, path_exists,
  remove_file, replied, write_json,
}
use parser_os_worker.Service.Action.{
  Action, Outcome, Proc, ask, catch, continue, exited, handle, ok, pure, raise, raised, settle,
  ◌>>=◌,
}
use parser_os_worker.Service.Keeps.{Keeps}
use parser_os_worker.Service.Returns.{IsNotExit, Stays}

pub record Quiet {ℓ} {A : Type ℓ} (m : Action A) : Type ℓ where
  pub stays : (s : Proc) → IsNotExit (m s).0
  pub same : (s : Proc) → (m s).1.notes ≡ s.notes

module _ {ℓ} {A : Type ℓ} where
  pub Quiet-pure : (a : A) → Quiet (pure a)
  unfolding pure
  Quiet-pure a = record { stays = λ s. tt; same = λ s. refl }

  pub Quiet-raise : (e : Exc) → Quiet (raise {A = A} e)
  unfolding raise
  Quiet-raise e = record { stays = λ s. tt; same = λ s. refl }

  pub Quiet-if : (b : Bool) (m n : Action A) → Quiet m → Quiet n → Quiet (if b then m else n)
  Quiet-if true m n km kn = km
  Quiet-if false m n km kn = kn

  handled :
      (r : Outcome A) (h : Exc → Action A) (s : Proc)
      → IsNotExit r
      → ((e : Exc) → Quiet (h e))
      → IsNotExit (handle r h s).0 × ((handle r h s).1.notes ≡ s.notes)
  handled (ok a) h s p k = (tt, refl)
  handled (raised e) h s p k = ((k e).stays s, (k e).same s)
  handled (exited n) h s p k = absurd p

  pub Quiet-catch :
      (m : Action A) (h : Exc → Action A) → Quiet m → ((e : Exc) → Quiet (h e)) → Quiet (catch m h)
  unfolding catch
  Quiet-catch m h km kh = record {
    stays = λ s. (handled (m s).0 h (m s).1 (km.stays s) kh).0;
    same = λ s. (handled (m s).0 h (m s).1 (km.stays s) kh).1 ∙ km.same s;
  }

  pub Stays-of_Quiet : (m : Action A) → Quiet m → Stays m
  Stays-of_Quiet m q = record { at = q.stays }

  -- what is said of the receipt stays true
  pub Keeps-of_Quiet : (P : Fields → Type 0) (m : Action A) → Quiet m → Keeps (λ s. P s.notes) m
  Keeps-of_Quiet P m q = record { at = λ s p. subst P (sym (q.same s)) p }

module _ {ℓ μ} {A : Type ℓ} {B : Type μ} where
  continued :
      (r : Outcome A) (f : A → Action B) (s : Proc)
      → IsNotExit r
      → ((a : A) → Quiet (f a))
      → IsNotExit (continue r f s).0 × ((continue r f s).1.notes ≡ s.notes)
  continued (ok a) f s p k = ((k a).stays s, (k a).same s)
  continued (raised e) f s p k = (tt, refl)
  continued (exited n) f s p k = absurd p

  pub Quiet-bind :
      (m : Action A) (f : A → Action B) → Quiet m → ((a : A) → Quiet (f a)) → Quiet (m >>= f)
  unfolding ◌>>=◌
  Quiet-bind m f km kf = record {
    stays = λ s. (continued (m s).0 f (m s).1 (km.stays s) kf).0;
    same = λ s. (continued (m s).0 f (m s).1 (km.stays s) kf).1 ∙ km.same s;
  }

  pub Quiet-replied :
      (r : Reply A) (h : Exc → Action B) (f : A → Action B)
      → ((e : Exc) → Quiet (h e))
      → ((a : A) → Quiet (f a))
      → Quiet (replied r h f)
  Quiet-replied (answer a) h f kh kf = kf a
  Quiet-replied (failure e) h f kh kf = kh e

module _ (w : Host) where
  settled :
      (c : Call) (s : Proc) (r : Reply (Answer c))
      → IsNotExit (settle c s r).0 × ((settle c s r).1.notes ≡ s.notes)
  settled c s (answer a) = (tt, refl)
  settled c s (failure e) = (tt, refl)

  Quiet-ask : (c : Call) → Quiet (ask w c)
  unfolding ask
  Quiet-ask c = record {
    stays = λ s. (settled c s (w.reply s.log c)).0;
    same = λ s. (settled c s (w.reply s.log c)).1;
  }

  pub Quiet-connect : Quiet (ask w (fetch connect_artifacts))
  Quiet-connect = Quiet-ask (fetch connect_artifacts)

  pub Quiet-list_artifacts : Quiet (ask w (fetch list_artifacts))
  Quiet-list_artifacts = Quiet-ask (fetch list_artifacts)

  pub Quiet-fetch_artifact_to : (n p : String) → Quiet (ask w (fetch (fetch_artifact_to n p)))
  Quiet-fetch_artifact_to n p = Quiet-ask (fetch (fetch_artifact_to n p))

  pub Quiet-make_dir : (p : String) → Quiet (ask w (fetch (make_dir p)))
  Quiet-make_dir p = Quiet-ask (fetch (make_dir p))

  pub Quiet-path_exists : (p : String) → Quiet (ask w (fetch (path_exists p)))
  Quiet-path_exists p = Quiet-ask (fetch (path_exists p))

  pub Quiet-open_tar : (p : String) → Quiet (ask w (fetch (open_tar p)))
  Quiet-open_tar p = Quiet-ask (fetch (open_tar p))

  pub Quiet-extract_all : (p d : String) (b : Bool) → Quiet (ask w (fetch (extract_all p d b)))
  Quiet-extract_all p d b = Quiet-ask (fetch (extract_all p d b))

  pub Quiet-list_dir : (p : String) → Quiet (ask w (fetch (list_dir p)))
  Quiet-list_dir p = Quiet-ask (fetch (list_dir p))

  pub Quiet-file_size : (p : String) → Quiet (ask w (fetch (file_size p)))
  Quiet-file_size p = Quiet-ask (fetch (file_size p))

  pub Quiet-remove_file : (p : String) → Quiet (ask w (fetch (remove_file p)))
  Quiet-remove_file p = Quiet-ask (fetch (remove_file p))

  pub Quiet-write_json : (p : String) (j : Json) → Quiet (ask w (fetch (write_json p j)))
  Quiet-write_json p j = Quiet-ask (fetch (write_json p j))

pub ruleset quiet_rules = (
  Quiet-pure, Quiet-raise, Quiet-if, Quiet-catch, Quiet-bind, Quiet-replied, Quiet-connect,
  Quiet-list_artifacts, Quiet-fetch_artifact_to, Quiet-make_dir, Quiet-path_exists, Quiet-open_tar,
  Quiet-extract_all, Quiet-list_dir, Quiet-file_size, Quiet-remove_file, Quiet-write_json,
)
