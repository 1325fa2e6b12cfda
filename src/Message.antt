-- ===== src/Message.antt =====
-- The queue message: `_parse_queue_json`, `_who_asked` and `JobMessage.from_raw`. A failure is the
-- exception that the function raises.
pub mod Wrapped
use parser_os_worker.Base.{
  Bool, Option, String, if◌then◌else◌, is_empty, none, some, strip, true, ◌*◌,
}
use parser_os_worker.Json.{
  Fields, Json, as_dict, end, find, get, obj, or_json, str, text_of, truthy,
}
use parser_os_worker.Service.{Exc, Host, Reply, SimpleJob, answer, failure}
use parser_os_worker.Service.Action.{◌>>◌}

abbrev pub exc : String → String → Exc
exc kind message = record { kind = kind; message = message }

infixl 10 ◌>>=◌
abbrev ◌>>=◌ {ℓ κ} : {A : Type ℓ} {B : Type κ} → Reply A → (A → Reply B) → Reply B
answer a >>= f = f a
failure e >>= f = failure e

pub record JobMessage : Type 0 where
  pub job : SimpleJob
  pub open job use *
  pub manifest_blob_url : String
  pub domain_pack : Json
  pub compile_options : Json
  pub force : Bool
  pub triggered_by : Option String
  pub trigger_kind : Option String

-- d[k]
pub required : String → Fields → Reply Json
required k d = elim (find k d) [ none ↦ failure (exc "KeyError" k) | some j ↦ answer j ]

-- x.get(k), which only a dict has
pub attribute_get : String → Json → Reply Json
attribute_get k j = elim (as_dict j) [
  | none ↦ failure (exc "AttributeError" "object has no attribute 'get'")
  | some d ↦ answer (get k d)
]

-- s or None
abbrev pub nonempty : String → Option String
nonempty s = if is_empty s then none else some s

module _ (w : Host) where
  abbrev pub stripped : Json → String
  stripped j = strip (text_of w.repr (or_json j (str "")))

  -- the second half: base64 around JSON
  parse_base64 : String → Reply Fields
  parse_base64 s = elim (w.from_base64 s) [
    | none ↦ failure (exc "ValueError" "Queue message is neither JSON nor base64 JSON")
    | some decoded ↦ elim (w.loads decoded) [
      | none ↦ failure (exc "ValueError" "Queue message is neither JSON nor base64 JSON")
      | some out ↦ elim (as_dict out) [
        | none ↦ failure (exc "ValueError" "Queue message decoded but was not a JSON object")
        | some d ↦ answer d
      ]
    ]
  ]

  abbrev plain_dict : Option Json → Option Fields
  plain_dict none = none
  plain_dict (some j) = as_dict j

  pub parse_queue_json : String → Reply Fields
  unfolding parse_base64
  parse_queue_json raw = elim (plain_dict (w.loads (strip raw))) [
    | some d ↦ answer d
    | none ↦ parse_base64 (strip raw)
  ]

  -- the service's shape, `trigger: {"kind": ..., "by": ...}`
  asked_by_trigger : Json → Option String
  asked_by_trigger trigger = elim (as_dict trigger) [
    | none ↦ none
    | some t ↦
        let by = stripped (get "by" t) in
        let kind = stripped (get "kind" t) in if is_empty by then nonempty kind else some by
  ]

  unfoldable pub who_asked : Fields → Option String
  unfolding asked_by_trigger
  who_asked d =
      let flat = stripped (or_json (get "triggered_by" d) (get "triggeredBy" d)) in
      if is_empty flat then asked_by_trigger (get "trigger" d) else some flat

  -- bool(d.get("force") or opts.get("force")): the second test is made only if the first fails
  read_force : Fields → Json → Reply Bool
  unfolding attribute_get
  read_force d opts =
      if truthy (get "force" d)
      then answer true
      else do f ← attribute_get "force" opts; answer (truthy f)

  -- str((d.get("trigger") or {}).get("kind") or "").strip() or None
  read_kind : Fields → Reply (Option String)
  unfolding attribute_get
  read_kind d = do
    kind ← attribute_get "kind" (or_json (get "trigger" d) (obj end))
    answer (nonempty (stripped kind))

  pub read_job : Fields → Reply JobMessage
  unfolding required read_force read_kind
  read_job d = do
    let opts = or_json (get "compile_options" d) (obj end)
    compile_id ← required "compile_id" d
    deal_id ← required "deal_id" d
    url ← required "manifest_blob_url" d
    force ← read_force d opts
    kind ← read_kind d
    answer (record {
      job = record { deal_id = text_of w.repr deal_id; compile_id = text_of w.repr compile_id };
      manifest_blob_url = text_of w.repr url;
      domain_pack = get "domain_pack" d;
      compile_options = opts;
      force = force;
      triggered_by = who_asked d;
      trigger_kind = kind;
    })

  unfoldable pub from_raw : String → Reply JobMessage
  unfolding parse_queue_json read_job
  from_raw raw = do d ← parse_queue_json raw; read_job d
