-- ===== src/Active/Effects.antt =====
-- The index of running compiles is best effort.

use parser_os_worker.Active.{clear_compile_active, mark_compile_active}
use parser_os_worker.Json.{Json}
use parser_os_worker.Service.{Host, SimpleJob}
use parser_os_worker.Service.Calls.{is_storage}
use parser_os_worker.Service.Only.{Only}
use parser_os_worker.Service.Only.Rules.{only_rules}
use parser_os_worker.Service.Returns.{Returns, Stays, Stays-of_Returns}
use parser_os_worker.Service.Returns.Rules.{returns_rules}

module _ (w : Host) (job : SimpleJob) where
  pub mark-storage : (stage : Json) → Only is_storage (mark_compile_active w job stage)
  unfolding mark_compile_active
  mark-storage stage = search only_rules depth 12

  pub mark-Returns : (stage : Json) → Returns (mark_compile_active w job stage)
  unfolding mark_compile_active
  mark-Returns stage = search returns_rules depth 12

  pub clear-storage : Only is_storage (clear_compile_active w job)
  unfolding clear_compile_active
  clear-storage = search only_rules depth 12

  pub clear-Returns : Returns (clear_compile_active w job)
  unfolding clear_compile_active
  clear-Returns = search returns_rules depth 12

  pub clear-Stays : Stays (clear_compile_active w job)
  clear-Stays = Stays-of_Returns _ clear-Returns

  pub mark-Stays : (stage : Json) → Stays (mark_compile_active w job stage)
  mark-Stays stage = Stays-of_Returns _ (mark-Returns stage)
