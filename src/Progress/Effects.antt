-- ===== src/Progress/Effects.antt =====
-- The progress document is touched through blobs only, and `_fail_progress_if_ours` never raises.

use parser_os_worker.Base.{String}
use parser_os_worker.Paths.{progress_blob_path}
use parser_os_worker.Progress.{current_progress, fail_progress_if_ours, read_progress}
use parser_os_worker.Service.{Host, SimpleJob}
use parser_os_worker.Service.Calls.{is_storage}
use parser_os_worker.Service.Only.{Only}
use parser_os_worker.Service.Only.Rules.{only_rules}
use parser_os_worker.Service.Returns.{Returns, Stays, Stays-of_Returns}
use parser_os_worker.Service.Returns.Rules.{returns_rules, stays_rules}
use parser_os_worker.Status.Effects.{read_dict-Returns, read_dict-storage}

module _ (w : Host) where
  pub read_progress-storage : (deal : String) → Only is_storage (read_progress w deal)
  unfolding read_progress
  read_progress-storage deal = read_dict-storage w (progress_blob_path deal)

  current_progress-storage : (deal : String) → Only is_storage (current_progress w deal)
  unfolding current_progress
  current_progress-storage deal = search only_rules depth 12

  pub fail_progress-storage :
      (job : SimpleJob) (stage error status : String)
      → Only is_storage (fail_progress_if_ours w job stage error status)
  unfolding fail_progress_if_ours
  fail_progress-storage job stage error status =
      search (only_rules, current_progress-storage) depth 12

  current_progress-Stays : (deal : String) → Stays (current_progress w deal)
  unfolding current_progress
  current_progress-Stays deal = search stays_rules depth 12

  pub read_progress-Returns : (deal : String) → Returns (read_progress w deal)
  unfolding read_progress
  read_progress-Returns deal = read_dict-Returns w (progress_blob_path deal)

  pub fail_progress-Returns :
      (job : SimpleJob) (stage error status : String)
      → Returns (fail_progress_if_ours w job stage error status)
  unfolding fail_progress_if_ours
  fail_progress-Returns job stage error status =
      search (returns_rules, current_progress-Stays) depth 12

  pub fail_progress-Stays :
      (job : SimpleJob) (stage error status : String)
      → Stays (fail_progress_if_ours w job stage error status)
  fail_progress-Stays job stage error status =
      Stays-of_Returns _ (fail_progress-Returns job stage error status)

  pub read_progress-Stays : (deal : String) → Stays (read_progress w deal)
  read_progress-Stays deal = Stays-of_Returns _ (read_progress-Returns deal)
