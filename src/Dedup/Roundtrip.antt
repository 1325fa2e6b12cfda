-- ===== src/Dedup/Roundtrip.antt =====
-- The fingerprint that a compile leaves is the one that the next one compares with.

use parser_os_worker.Base.{Option, String, none, some}
use parser_os_worker.Dedup.{manifest_as_of, norm_as_of}
use parser_os_worker.Json.{Json, str}
use parser_os_worker.Service.{Host}

-- what the scope of a manifest is compared as
abbrev pub scope_of : Host → Json → Option String
scope_of w m = elim (manifest_as_of w m) [ none ↦ none | some v ↦ norm_as_of w (str v) ]
