-- ===== src/Recovery/Spares.antt =====
-- Whose runs a process that starts leaves alone.
use parser_os_worker.Base.{
  Bool, List, Option, String, [], ap, false, false≢true, if◌then◌else◌, inl, inr, is_empty, none,
  refl, some, suc, sym, true, ℕ, ◌<>◌, ◌∷◌, ◌≡◌,
}
use parser_os_worker.Documents.{parsed, read_dict, read_json}
use parser_os_worker.Json.{Fields, Json, arr, as_dict, bool, null, num, obj, str}
use parser_os_worker.Paths.{active_index_prefix}
use parser_os_worker.Recovery.{
  is_dead_marker, recover_blob, recover_blobs, recover_dead_runs, recover_marker,
}
use parser_os_worker.Recovery.Effects.{recover-Stays}
use parser_os_worker.Service.{
  Blob, Event, History, Host, answer, delete_blob, delete_message, did, download, failed,
  list_blobs, upload,
}
use parser_os_worker.Service.Action.{
  Option-cases, Outcome, Proc, Reply-cases, ask, catch, exited, ok, pure, raised, ◌>>=◌,
}
use parser_os_worker.Service.Only.{count}
use parser_os_worker.Service.Returns.{IsNotExit}
use parser_os_worker.Service.Triples.{Ends, Triple, Triple-bind, Triple-if, Triple-pure}

-- a call that changes a blob or a queue
abbrev pub writing : Event → Bool
writing (did (upload p b e)) = true
writing (did (delete_blob p)) = true
writing (did (delete_message q i x)) = true
writing (failed (upload p b e)) = true
writing (failed (delete_blob p)) = true
writing (failed (delete_message q i x)) = true
writing _ = false

module _ (w : Host) (n : ℕ) where
  -- n calls have changed anything
  abbrev Unwritten : Proc → Type 0
  Unwritten s = count writing s.log ≡ n

  -- nothing raises
  abbrev Never : Proc → Type 0
  Never s = ⊥

  -- a document that is no marker of a dead process
  abbrev Alive : Option Fields → Proc → Type 0
  Alive none s = Unwritten s
  Alive (some d) s = Unwritten s × (is_dead_marker w d ≡ false)

  module _
      (alive : (h : History) (name : String) (b : Blob) (d : Fields)
        → w.reply h (download name) ≡ answer b
        → b.doc ≡ some (obj d)
        → is_dead_marker w d ≡ false) where
    dict-Alive :
        (h : History) (name : String) (b : Blob) (j : Json) (s : Proc)
        → w.reply h (download name) ≡ answer b
        → b.doc ≡ some j
        → Unwritten s
        → Alive (as_dict j) s
    unfolding as_dict
    dict-Alive h name b (obj d) s e f p = (p, alive h name b d e f)
    dict-Alive h name b null s e f p = p
    dict-Alive h name b (bool x) s e f p = p
    dict-Alive h name b (num x) s e f p = p
    dict-Alive h name b (str x) s e f p = p
    dict-Alive h name b (arr x) s e f p = p

    blob-Alive : (name : String) → Triple Unwritten (read_dict w name) Alive Never
    unfolding read_dict read_json parsed catch ◌>>=◌ ask pure
    blob-Alive name = record {
      at = λ s p. elim (Reply-cases (w.reply s.log (download name))) [
        | inl (b, e) ↦ elim (Option-cases b.doc) [
          | inl f ↦ rw (e, f) p
          | inr (j, f) ↦ rw (e, f) (dict-Alive s.log name b j _ e f p)
        ]
        | inr (x, e) ↦ rw e p
      ];
    }

    -- nothing was failed, and nothing was written
    abbrev Spared : Bool → Proc → Type 0
    Spared failed_one s = Unwritten s × (failed_one ≡ false)

    marker-Spared : (o : Option Fields) → Triple (Alive o) (recover_marker w o) Spared Never
    unfolding recover_marker pure
    marker-Spared none = Triple-pure false (λ s p. (p, refl))
    marker-Spared (some d) = record { at = λ s (p, e). rw e (p, refl) }

    name-Spared : (name : String) → Triple Unwritten (recover_blob w name) Spared Never
    unfolding recover_blob
    name-Spared name =
        Triple-if (is_empty name) (pure false) _ (λ _. Triple-pure false (λ s p. (p, refl)))
          (λ _. Triple-bind (read_dict w name) (recover_marker w) (blob-Alive name) marker-Spared)

    -- no run was failed
    abbrev AllSpared : ℕ → Proc → Type 0
    AllSpared k s = Unwritten s × (k ≡ 0)

    counted_spared :
        (failed_one : Bool) (k : ℕ)
        → failed_one ≡ false
        → k ≡ 0
        → (if failed_one then suc k else k) ≡ 0
    counted_spared true k e f = absurd (false≢true (sym e))
    counted_spared false k e f = f

    names-Spared : (names : List String) → Triple Unwritten (recover_blobs w names) AllSpared Never
    unfolding recover_blobs
    names-Spared [] = Triple-pure 0 (λ s p. (p, refl))
    names-Spared (name ∷ names) =
        Triple-bind (recover_blob w name) _ (name-Spared name) λ failed_one. record {
          at = λ s (p, e).
              (Triple-bind (recover_blobs w names) _ (names-Spared names)
                  λ k. Triple-pure _ (λ s (p, f). (p, counted_spared failed_one k e f))).at
                s p;
        }

    listing :
        Triple Unwritten
          (catch (ask w (list_blobs (active_index_prefix <> "/"))) (λ _. pure []))
          (λ _. Unwritten)
          Never
    unfolding catch ask pure
    listing = record {
      at = λ s p. elim (Reply-cases (w.reply s.log (list_blobs (active_index_prefix <> "/")))) [
        | inl (names, e) ↦ rw e p
        | inr (x, e) ↦ rw e p
      ];
    }

    runs-Spared : Triple Unwritten (recover_dead_runs w) AllSpared Never
    unfolding recover_dead_runs
    runs-Spared = Triple-bind _ (recover_blobs w) listing names-Spared

    returned :
        (o : Outcome ℕ) (s : Proc)
        → IsNotExit o
        → Ends AllSpared Never o s
        → (o ≡ ok 0) × (count writing s.log ≡ n)
    returned (ok k) s h (p, e) = (ap ok e, p)
    returned (raised x) s h p = absurd p
    returned (exited k) s h p = absurd h

-- Where no document that can be read is a marker which an earlier boot of this replica has left, the
-- recovery fails no run, changes no blob, deletes no message, and returns 0.
pub recover_dead_runs-spares :
    (w : Host) (s : Proc)
    → ((h : History) (name : String) (b : Blob) (d : Fields)
        → w.reply h (download name) ≡ answer b
        → b.doc ≡ some (obj d)
        → is_dead_marker w d ≡ false)
    → ((recover_dead_runs w s).0 ≡ ok 0)
      × (count writing (recover_dead_runs w s).1.log ≡ count writing s.log)
recover_dead_runs-spares w s alive =
    returned w (count writing s.log) alive (recover_dead_runs w s).0 (recover_dead_runs w s).1
      ((recover-Stays w).at s) ((runs-Spared w (count writing s.log) alive).at s refl)
