-- ===== src/Main/Stays.antt =====
-- `main` returns or raises: only a thread or a signal ends the process.
use parser_os_worker.Json.{Json}
use parser_os_worker.Service.{Message}
use parser_os_worker.Service.Action.{Action}
use parser_os_worker.Service.Returns.{Returns, Stays}
