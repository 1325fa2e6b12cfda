-- ===== src/Dedup/Effects.antt =====
-- Change detection reads one blob, and never raises.

use parser_os_worker.Base.{List, Option, String, none, some}
use parser_os_worker.Dedup.{compare_record, content_hashes, unchanged_since_last_compile}
use parser_os_worker.Json.{Json}
use parser_os_worker.Service.{Host}
use parser_os_worker.Service.Calls.{is_storage}
use parser_os_worker.Service.Only.{Only}
use parser_os_worker.Service.Only.Rules.{only_rules}
use parser_os_worker.Service.Returns.{Returns}
use parser_os_worker.Service.Returns.Rules.{returns_rules}
use parser_os_worker.Status.Effects.{read_dict-Returns, read_dict-storage}

module _ (w : Host) (deal : String) (manifest : Json) where
  compare-storage : (h : Option (List String)) → Only is_storage (compare_record w deal manifest h)
  unfolding compare_record
  compare-storage none = search only_rules depth 12
  compare-storage (some hashes) = search (only_rules, read_dict-storage) depth 12

  compare-Returns : (h : Option (List String)) → Returns (compare_record w deal manifest h)
  unfolding compare_record
  compare-Returns none = search returns_rules depth 12
  compare-Returns (some hashes) = search (returns_rules, read_dict-Returns) depth 12

  pub unchanged-storage : Only is_storage (unchanged_since_last_compile w deal manifest)
  unfolding unchanged_since_last_compile
  unchanged-storage = compare-storage (content_hashes w manifest)

  pub unchanged-Returns : Returns (unchanged_since_last_compile w deal manifest)
  unfolding unchanged_since_last_compile
  unchanged-Returns = compare-Returns (content_hashes w manifest)
