-- ===== src/Cancel/Exits.antt =====
-- How the cancel watcher ends.

use parser_os_worker.Base.{String, ◌≡◌, ◌⊎◌}
use parser_os_worker.Message.{JobMessage}
use parser_os_worker.Service.{Host, Message}
use parser_os_worker.Service.Action.{Outcome, exited, ok}
use parser_os_worker.Service.Exits.{Exits}
use parser_os_worker.Service.Returns.{Returns}

module _ (w : Host) (job : JobMessage) (queue : String) (msg : Message) (started : String) where
  -- the two ways in which the watcher ends
  abbrev Ended : Outcome (Unit {0}) → Type 0
  Ended r = (r ≡ ok tt) ⊎ (r ≡ exited 0)
