-- ===== src/Documents/Reads.antt =====
-- Reading a document that is there.
use parser_os_worker.Base.{String, refl, some, ◌∷◌, ◌≡◌}
use parser_os_worker.Documents.{parsed, read_dict, read_json}
use parser_os_worker.Json.{Json, as_dict}
use parser_os_worker.Service.{Blob, Host, answer, did, download}
use parser_os_worker.Service.Action.{Proc, ask, catch, ok, pure, ◌>>=◌}

module _ (w : Host) where
  -- what was read, and one call more
  pub read_dict-found :
      (path : String) (b : Blob) (j : Json) (s : Proc)
      → w.reply s.log (download path) ≡ answer b
      → b.doc ≡ some j
      → read_dict w path s ≡ (ok (as_dict j), record s { log = did (download path) ∷ s.log })
  unfolding read_dict read_json parsed ◌>>=◌ catch ask pure
  read_dict-found path b j s e f = rw (e, f) refl
