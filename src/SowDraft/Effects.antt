-- ===== src/SowDraft/Effects.antt =====
-- What a SOW draft touches: blobs and one package.

use parser_os_worker.Base.{String}
use parser_os_worker.Compile.Effects.{errand}
use parser_os_worker.Documents.{parsed, read_json}
use parser_os_worker.Json.{Fields, Json}
use parser_os_worker.Recovery.{lift}
use parser_os_worker.Service.{Host, Reply, answer, failure}
use parser_os_worker.Service.Calls.{errand_of_storage, is_storage}
use parser_os_worker.Service.Only.{Only, Only-pure, Only-raise}
use parser_os_worker.Service.Only.Rules.{only_rules}
use parser_os_worker.Service.Returns.{Stays, Stays-pure, Stays-raise}
use parser_os_worker.Service.Returns.Rules.{stays_rules}
use parser_os_worker.SowDraft.{draft, run_sow_draft, sow_draft_status, update_handoff, write_draft}

module _ (w : Host) where
  sow_status-storage : (deal : String) (d : Fields) → Only is_storage (sow_draft_status w deal d)
  unfolding sow_draft_status
  sow_status-storage deal d = search only_rules depth 9

  read_json-storage : (path : String) → Only is_storage (read_json w path)
  unfolding read_json parsed
  read_json-storage path = search only_rules depth 9

  update_handoff-storage : (deal : String) (j : Json) → Only is_storage (update_handoff w deal j)
  unfolding update_handoff
  update_handoff-storage deal j = search (only_rules, read_json-storage) depth 12

  lift-storage : {A : Type 0} (r : Reply A) → Only is_storage (lift w r)
  unfolding lift
  lift-storage (answer a) = Only-pure a
  lift-storage (failure e) = Only-raise e

  ruleset drafts = (
    only_rules, lift-storage, errand_of_storage, sow_status-storage, read_json-storage,
    update_handoff-storage,
  )

  write_draft-errand :
      (deal : String) (base env : Fields) → Only (errand w) (write_draft w deal base env)
  unfolding write_draft
  write_draft-errand deal base env = search drafts depth 20

  draft-errand : (deal : String) (base : Fields) → Only (errand w) (draft w deal base)
  unfolding draft
  draft-errand deal base = search (drafts, write_draft-errand) depth 12

  pub run_sow_draft-errand :
      (deal : String) (job : Fields) → Only (errand w) (run_sow_draft w deal job)
  unfolding run_sow_draft
  run_sow_draft-errand deal job = search (drafts, draft-errand) depth 14

  handoff-Stays : (deal : String) (sow : Json) → Stays (update_handoff w deal sow)
  unfolding update_handoff read_json parsed
  handoff-Stays deal sow = search stays_rules depth 14

  status-Stays : (deal : String) (body : Fields) → Stays (sow_draft_status w deal body)
  unfolding sow_draft_status
  status-Stays deal body = search stays_rules depth 12

  lift-Stays : {A : Type 0} (r : Reply A) → Stays (lift w r)
  unfolding lift
  lift-Stays (answer a) = Stays-pure a
  lift-Stays (failure e) = Stays-raise e

  write_draft-Stays : (deal : String) (base env : Fields) → Stays (write_draft w deal base env)
  unfolding write_draft
  write_draft-Stays deal base env =
      search (stays_rules, handoff-Stays, status-Stays, lift-Stays) depth 20

  draft-Stays : (deal : String) (base : Fields) → Stays (draft w deal base)
  unfolding draft read_json parsed
  draft-Stays deal base = search (stays_rules, write_draft-Stays) depth 14

  pub run_sow_draft-Stays : (deal : String) (d : Fields) → Stays (run_sow_draft w deal d)
  unfolding run_sow_draft
  run_sow_draft-Stays deal d = search (stays_rules, draft-Stays, status-Stays) depth 14
