-- ===== src/Json.antt =====
-- The values that `json.loads` returns, and what the worker asks of them: `d.get(k)`, truth,
-- `isinstance(x, dict)`, `str(x)` and `int(x)`. A float is its sign, its whole part and its
-- millionths; JSON's `Infinity` and `NaN`, which `json.loads` accepts, are numbers too.
pub mod Lookup
pub mod Numbers
use parser_os_worker.Base.{
  Bool, List, Option, String, [], false, get_or, if◌then◌else◌, is_empty, none, not, some, str_eq,
  suc, true, ℕ, ◌&&◌, ◌<>◌, ◌==◌, ◌∷◌,
}
use parser_os_worker.Json.Numbers.{show_nat}

pub data Number : Type 0 where
  nat : ℕ → Number
  neg : ℕ → Number  -- -(n + 1)
  float : Bool → ℕ → ℕ → Number
  infinite nan : Number

mutual
  pub data Json : Type 0 where
    null : Json
    bool : Bool → Json
    num : Number → Json
    str : String → Json
    arr : Items → Json
    obj : Fields → Json

  pub data Items : Type 0 where
    nil : Items
    cons : Json → Items → Items

  pub data Fields : Type 0 where
    end : Fields
    field : String → Json → Fields → Fields

-- A dict literal.
abbrev pub fields : List (String × Json) → Fields
fields [] = end
fields ((k, j) ∷ l) = field k j (fields l)

-- d.get(k), and `k in d`
unfoldable pub find : String → Fields → Option Json
find k end = none
find k (field i j d) = if str_eq i k then some j else find k d

-- d.get(k), where a missing key reads as null
unfoldable pub get : String → Fields → Json
unfolding find
get k d = get_or null (find k d)

-- d[k] = j
unfoldable pub put : String → Json → Fields → Fields
put k j end = field k j end
put k j (field i x d) = if str_eq i k then field i j d else field i x (put k j d)

-- {**d, **e}
unfoldable pub merge : Fields → Fields → Fields
unfolding put
merge d end = d
merge d (field k j e) = merge (put k j d) e

-- {k: v for k, v in d.items() if k in keys}
unfoldable pub restrict : (String → Bool) → Fields → Fields
restrict p end = end
restrict p (field k j d) = let rest = restrict p d in if p k then field k j rest else rest

-- bool(x)
unfoldable pub truthy : Json → Bool
truthy null = false
truthy (bool b) = b
truthy (num (nat n)) = not (n == 0)
truthy (num (neg n)) = true
truthy (num (float s w f)) = not (w == 0 && f == 0)
truthy (num infinite) = true
truthy (num nan) = true
truthy (str s) = not (is_empty s)
truthy (arr nil) = false
truthy (arr (cons j js)) = true
truthy (obj end) = false
truthy (obj (field k j d)) = true

-- x if isinstance(x, dict) else None
unfoldable pub as_dict : Json → Option Fields
as_dict (obj d) = some d
as_dict _ = none

-- x if isinstance(x, dict) else {}
abbrev pub dict_or_empty : Json → Fields
dict_or_empty j = get_or end (as_dict j)

-- x or y
unfoldable pub or_json : Json → Json → Json
unfolding truthy
or_json x y = if truthy x then x else y

-- str(x); `repr` is Python's text of a float, a list or a dict.
unfoldable pub text_of : (Json → String) → Json → String
unfolding show_nat
text_of repr null = "None"
text_of repr (bool true) = "True"
text_of repr (bool false) = "False"
text_of repr (num (nat n)) = show_nat n
text_of repr (num (neg n)) = "-" <> show_nat (suc n)
text_of repr (str s) = s
text_of repr j = repr j

-- json.dumps(None if x is None else x)
abbrev pub optional : Option String → Json
optional none = null
optional (some s) = str s

-- a list of texts
abbrev pub text_items : List String → Items
text_items [] = nil
text_items (s ∷ l) = cons (str s) (text_items l)
