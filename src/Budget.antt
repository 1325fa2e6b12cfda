-- ===== src/Budget.antt =====
-- `compile_budget_sec`, in thousandths of a second.
pub mod Bounds
use parser_os_worker.Base.{max, min, none, size, some, suc, ℕ, ◌*◌}
use parser_os_worker.Json.{
  Fields, Items, Json, arr, as_dict, cons, end, field, get, nil, obj, or_json, str,
}
use parser_os_worker.Service.{Config, Reply, answer, failure}

pub count_items : Items → ℕ
count_items nil = 0
count_items (cons j js) = suc (count_items js)

pub count_fields : Fields → ℕ
count_fields end = 0
count_fields (field k j d) = suc (count_fields d)

-- len(x)
pub len_of : Json → Reply ℕ
unfolding count_items count_fields
len_of (arr js) = answer (count_items js)
len_of (obj d) = answer (count_fields d)
len_of (str s) = answer (size s)
len_of _ = failure (record { kind = "TypeError"; message = "object has no len()" })

-- len((manifest or {}).get("artifacts") or []), which raises on a malformed manifest
unfoldable pub document_length : Json → Reply ℕ
unfolding len_of
document_length manifest = elim (as_dict (or_json manifest (obj end))) [
  | none ↦ failure (record { kind = "AttributeError"; message = "object has no attribute 'get'" })
  | some d ↦ len_of (or_json (get "artifacts" d) (arr nil))
]

-- the same, where an exception counts as no document
unfoldable pub document_count : Json → ℕ
unfolding document_length
document_count manifest = elim (document_length manifest) [ answer n ↦ n | failure e ↦ 0 ]

module _ (c : Config) where
  pub budget_floor : ℕ
  budget_floor = 1000 * c.compile_timeout_sec

  pub budget_ceiling : ℕ
  unfolding budget_floor
  budget_ceiling = max budget_floor (c.lease_max_sec * c.lease_fraction)

  pub compile_budget : Json → ℕ
  unfolding budget_floor budget_ceiling
  compile_budget manifest =
      min budget_ceiling (max budget_floor (c.sec_per_doc * document_count manifest))
