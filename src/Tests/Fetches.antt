-- ===== src/Tests/Fetches.antt =====
-- A container that starts with one head, and one that has no account.
use parser_os_worker.Base.{
  [], codes_end, codes_start, contains_codes, first_part, lower, none, refl, strip, ◌∷◌, ◌≡◌,
}
use parser_os_worker.Dedup.{sorted}
use parser_os_worker.FetchMl.{Paths, among, base_name, is_on, is_skipped_blob, without}
use parser_os_worker.FetchMl.Required.{is_optional, missing_of, required_paths}
use parser_os_worker.FetchMl.Script.{
  absent_of, check, extract_one, fetch_all, fetch_ml, note, write_receipt,
}
use parser_os_worker.FetchMl.Script.Gate.{exit_status, fetch_ml-Ready, fetch_ml-optional}
use parser_os_worker.FetchMl.Script.Receipt.{Ready}
use parser_os_worker.Json.{Json, nat, num}
use parser_os_worker.Service.{History, Host}
use parser_os_worker.Service.Action.{ask, catch, ◌>>=◌}
use parser_os_worker.Tests.{idle_process, sample_world}

abbrev starting : Paths
starting =
    ("AZURE_STORAGE_CONNECTION_STRING", "account") ∷ ("SOWSMITH_HEAD_DIR", "/tmp/ml/_heads") ∷ []

abbrev fetching : Host
fetching = sample_world [] none

abbrev noon : History → Json
noon h = num (nat 12)

ends_well : exit_status (fetch_ml fetching starting (λ p. p) noon idle_process).0 ≡ 0
unfolding fetch_ml fetch_all is_skipped_blob first_part lower codes_start codes_end extract_one
    check absent_of note write_receipt required_paths among strip is_on ◌>>=◌ ask catch
    contains_codes base_name missing_of sorted without
ends_well = refl

fetch_ml-Ready_example :
    Ready fetching starting
      (λ p. p)
      noon
      (fetch_ml fetching starting (λ p. p) noon idle_process).1.notes
unfolding is_optional is_on lower strip
fetch_ml-Ready_example = fetch_ml-Ready fetching starting (λ p. p) noon idle_process refl ends_well

abbrev lenient : Paths
lenient = ("ML_ARTIFACTS_OPTIONAL", " Yes") ∷ []

fetch_ml-optional_example : exit_status (fetch_ml fetching lenient (λ p. p) noon idle_process).0 ≡ 0
unfolding fetch_ml note write_receipt is_optional is_on lower strip ◌>>=◌ ask catch
fetch_ml-optional_example =
    fetch_ml-optional fetching lenient (λ p. p) noon idle_process refl (λ e h. cc)
