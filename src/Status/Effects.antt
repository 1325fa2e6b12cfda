-- ===== src/Status/Effects.antt =====
-- The status surface touches blobs only, and never raises.

use parser_os_worker.Base.{String}
use parser_os_worker.Documents.{parsed, read_dict, read_json}
use parser_os_worker.Json.{Fields}
use parser_os_worker.Service.{Host, SimpleJob}
use parser_os_worker.Service.Calls.{is_storage}
use parser_os_worker.Service.Only.{Only}
use parser_os_worker.Service.Only.Rules.{only_rules}
use parser_os_worker.Service.Returns.{Returns, Stays, Stays-of_Returns}
use parser_os_worker.Service.Returns.Rules.{returns_rules}
use parser_os_worker.Status.{
  previous_attempt_cannot_succeed, read_status, write_run_index, write_status,
}

module _ (w : Host) where
  pub read_dict-storage : (path : String) → Only is_storage (read_dict w path)
  unfolding read_dict read_json parsed
  read_dict-storage path = search only_rules depth 12

  pub read_dict-Returns : (path : String) → Returns (read_dict w path)
  unfolding read_dict read_json parsed
  read_dict-Returns path = search returns_rules depth 12

  pub write_run_index-storage : (payload : Fields) → Only is_storage (write_run_index w payload)
  unfolding write_run_index
  write_run_index-storage payload = search only_rules depth 12

  write_run_index-Returns : (payload : Fields) → Returns (write_run_index w payload)
  unfolding write_run_index
  write_run_index-Returns payload = search returns_rules depth 12

  pub write_status-storage :
      (job : SimpleJob) (status : String) (extra : Fields)
      → Only is_storage (write_status w job status extra)
  unfolding write_status
  write_status-storage job status extra = search (only_rules, write_run_index-storage) depth 12

  pub write_status-Returns :
      (job : SimpleJob) (status : String) (extra : Fields)
      → Returns (write_status w job status extra)
  unfolding write_status
  write_status-Returns job status extra = search (returns_rules, write_run_index-Returns) depth 12

  pub previous-storage : (job : SimpleJob) → Only is_storage (previous_attempt_cannot_succeed w job)
  unfolding previous_attempt_cannot_succeed read_status
  previous-storage job = search (only_rules, read_dict-storage) depth 12

  pub write_status-Stays :
      (job : SimpleJob) (status : String) (extra : Fields) → Stays (write_status w job status extra)
  write_status-Stays job status extra = Stays-of_Returns _ (write_status-Returns job status extra)

  pub read_dict-Stays : (path : String) → Stays (read_dict w path)
  read_dict-Stays path = Stays-of_Returns _ (read_dict-Returns path)
