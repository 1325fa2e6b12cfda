-- ===== src/FetchMl/Required.antt =====
-- What fetch_ml.py reads of the environment: the directory, and the paths that the container is configured
-- to load from it.
use parser_os_worker.Base.{
  Bool, List, String, [], after_first, any, contains_codes, first_part, if◌then◌else◌, is_empty,
  length, lower, map, not, size, starts_with, str_eq, strip, ◌&&◌, ◌+◌, ◌<>◌, ◌∷◌,
}
use parser_os_worker.Dedup.{sorted}
use parser_os_worker.FetchMl.{
  Paths, among, base_name, getenv, is_on, join_path, join_with, keys, runtime_created, without,
}
use parser_os_worker.Json.Numbers.{show_nat}

module _ (env : Paths) where
  -- DST, RECEIPT and OPTIONAL
  pub dst : String
  unfolding getenv
  dst = getenv env "ML_ARTIFACT_DIR" "/tmp/ml"

  unfoldable pub receipt_path : String
  unfolding dst
  receipt_path = join_path dst "_fetch_ml_receipt.json"

  unfoldable pub is_optional : Bool
  unfolding getenv
  is_optional = is_on (getenv env "ML_ARTIFACTS_OPTIONAL" "")

  module _ (real_path : String → String) where
    -- whether the value of an environment variable is a path that must be there
    unfoldable pub is_required : String → String → Bool
    unfolding dst
    is_required key value =
        let p = strip value in
        let base = real_path dst in
        let low = lower (base_name p <> "|" <> p) in
        starts_with key "SOWSMITH_"
        && not (is_empty p)
        && not (str_eq (real_path p) base)
        && starts_with (real_path p) (base <> "/")
        && not (any (contains_codes low) runtime_created)
        && not (contains_codes low "_head_registry")

    pub required_of : Paths → Paths
    unfolding is_required
    required_of [] = []
    required_of ((key, value) ∷ rest) =
        let more = required_of rest in
        if is_required key value then (key, strip value) ∷ more else more

    -- _required_paths
    unfoldable pub required_paths : Paths
    unfolding required_of
    required_paths = required_of env

    -- _root_of, for a path under DST
    unfoldable pub root_of : String → String
    root_of p = first_part (after_first (size (real_path dst) + 1) (real_path p))

    -- the keys of `absent` whose root is in none of `roots`
    unfoldable pub unsourced : List String → Paths → List String
    unfolding among
    unsourced roots [] = []
    unsourced roots ((k, p) ∷ rest) =
        let more = unsourced roots rest in if among roots (root_of p) then more else k ∷ more

    unfoldable pub no_source_of : List String → Paths → List String
    no_source_of roots absent = sorted (unsourced roots absent)

    unfoldable pub missing_of : List String → Paths → List String
    missing_of roots absent = sorted (without (no_source_of roots absent) (keys absent))

    -- the text of the paths that are missing
    unfoldable pub missing_text : List String → String
    unfolding join_with
    missing_text missing =
        show_nat (length missing)
        <> " configured artifact(s) the store HAS but the fetch did not land: "
        <> join_with ", " (map (λ k. k <> "=" <> getenv required_paths k "") missing)
