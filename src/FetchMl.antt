-- ===== src/FetchMl.antt =====
-- fetch_ml.py: the model artifacts that a container downloads before it starts, and the gate that keeps
-- a container from starting without them. The environment, os.path.realpath and the clock are parameters.
pub mod Required
pub mod Quiet
pub mod Script
use Prim.Native.Char.{code}
use parser_os_worker.Base.{
  Bool, List, String, [], any, codes, codes_end, codes_start, contains_codes, false, if◌then◌else◌,
  is_empty, lower, not, same_codes, starts_with, str_eq, strip, true, ◌&&◌, ◌<>◌, ◌==◌, ◌||◌, ◌∷◌,
}
use parser_os_worker.Json.{Fields, end, field, str}
use parser_os_worker.Service.{Exc}

-- isinstance(e, OSError), by the names of its built-in subclasses
unfoldable pub is_os_error : Exc → Bool
is_os_error e = any (str_eq e.kind) (
    "OSError" ∷ "FileNotFoundError" ∷ "FileExistsError" ∷ "PermissionError" ∷ "IsADirectoryError"
    ∷ "NotADirectoryError" ∷ "InterruptedError" ∷ "BlockingIOError" ∷ "ChildProcessError"
    ∷ "ProcessLookupError" ∷ "TimeoutError" ∷ "ConnectionError" ∷ "BrokenPipeError"
    ∷ "ConnectionAbortedError" ∷ "ConnectionRefusedError" ∷ "ConnectionResetError" ∷ [])

-- text.strip().lower() in {"1", "true", "yes", "on"}
unfoldable pub is_on : String → Bool
is_on value =
    let word = lower (strip value) in
    any (λ t. same_codes word (codes t)) ("1" ∷ "true" ∷ "yes" ∷ "on" ∷ [])

-- os.path.join(d, name)
unfoldable pub join_path : String → String → String
join_path d name =
    if starts_with name "/"
    then name
    else if is_empty d
    then name
    else if codes_end (codes d) (codes "/")
    then d <> name
    else d <> "/" <> name

-- the text up to its last slash, and after it
split_path : String → String × String
split_path String.[] = ("", "")
split_path (String.◌∷◌ c s) =
    let (head, tail) = split_path s in
    if is_empty head
    then (if code c == 47 then ("/", tail) else ("", String.◌∷◌ c tail))
    else (String.◌∷◌ c head, tail)

-- text.rstrip("/")
strip_slashes : String → String
strip_slashes String.[] = String.[]
strip_slashes (String.◌∷◌ c s) =
    let rest = strip_slashes s in
    if code c == 47 && is_empty rest then String.[] else String.◌∷◌ c rest

-- os.path.dirname(p)
unfoldable pub dir_name : String → String
unfolding split_path strip_slashes
dir_name p =
    let head = (split_path p).0 in
    if is_empty (strip_slashes head) then head else strip_slashes head

-- os.path.basename(p)
unfoldable pub base_name : String → String
unfolding split_path
base_name p = (split_path p).1

-- _RUNTIME_CREATED
abbrev pub runtime_created : List String
runtime_created = "cache" ∷ "_shadow_history" ∷ "_feedback" ∷ "_rule_decisions" ∷ []

-- _skip
unfoldable pub is_skipped_blob : Bool → String → Bool
is_skipped_blob include_registry name =
    let low = lower name in
    if codes_start low (codes "dataset/")
      || any (λ t. codes_end low (codes t)) (".png" ∷ ".jpg" ∷ ".jpeg" ∷ ".zip" ∷ [])
    then true
    else if same_codes low (codes "_training_deepseek.db")
    then false
    else if any (contains_codes low) ("_training_" ∷ "_runpod_" ∷ "_backup_" ∷ [])
    then true
    else not include_registry && codes_start low (codes "_head_registry/")

abbrev pub Paths : Type 0
Paths = List (String × String)

-- text in texts
unfoldable pub among : List String → String → Bool
among l s = any (str_eq s) l

abbrev pub keys : Paths → List String
keys [] = []
keys ((k, p) ∷ l) = k ∷ keys l

-- a set of texts with one more
pub add_root : String → List String → List String
unfolding among
add_root r roots = if among roots r then roots else r ∷ roots

pub add_roots : List String → List String → List String
unfolding add_root
add_roots [] roots = roots
add_roots (r ∷ rs) roots = add_roots rs (add_root r roots)

-- what the environment holds, in its order
pub getenv : Paths → String → String → String
getenv [] k default = default
getenv ((j, v) ∷ env) k default = if str_eq j k then v else getenv env k default

-- the two loops over archives
abbrev pub nested_archives : Paths
nested_archives =
    ("gate_rubric_best.tgz", "_gate_rubric") ∷ ("span_heads_gpu.tgz", "_span_gpu") ∷ []

abbrev pub root_archives : List String
root_archives =
    "contrastive_type.tgz" ∷ "contrastive_facet.tgz" ∷ "type_head_gpu.tgz"
    ∷ "contrastive_router.tgz" ∷ []

abbrev pub is_nil : List String → Bool
is_nil [] = true
is_nil (s ∷ l) = false

-- sep.join(texts)
pub join_with : String → List String → String
join_with sep [] = ""
join_with sep (s ∷ []) = s
join_with sep (s ∷ t ∷ l) = s <> sep <> join_with sep (t ∷ l)

-- the keys of `l` that are not in `out`
unfoldable pub without : List String → List String → List String
unfolding among
without out [] = []
without out (k ∷ l) = let more = without out l in if among out k then more else k ∷ more

-- dict(paths)
abbrev pub path_fields : Paths → Fields
path_fields [] = end
path_fields ((k, p) ∷ rest) = field k (str p) (path_fields rest)
