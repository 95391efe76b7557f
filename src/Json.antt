-- ===== src/Json.antt =====
-- The values that a JSON document gives Python (`None`, `bool`, `int`, `float`, `str`, `list`,
-- `dict`), which every `dict[str, Any]` of the program holds.
pub mod Convert
use claude_code_proxy.Prelude.{
  ℕ, String, Bool, true, false, not, Option, none, some, List, [], ◌∷◌, Dict, lookup, str_eq,
  if◌then◌else◌, ◌==◌,
}
use claude_code_proxy.Prelude.Int.{ℤ, pos, negsuc}

-- What `int` makes of a float, which Python's `json` may read as `Infinity` or `NaN` too.
pub data Truncated : Type 0 where
  finite : ℤ → Truncated
  infinite : Truncated
  not_a_number : Truncated

-- A float is never computed with: what the program asks of it is its truth value and `int`.
pub record Real : Type 0 where
  pub truncated : Truncated
  pub is_zero : Bool
  pub literal : String

mutual
  pub data Value : Type 0 where
    null : Value
    bool : Bool → Value
    int : ℤ → Value
    real : Real → Value
    text : String → Value
    list : Items → Value
    dict : Fields → Value

  pub data Fields : Type 0 where
    end : Fields
    field : String → Value → Fields → Fields

  pub data Items : Type 0 where
    nil : Items
    cons : Value → Items → Items

abbrev pub to_list : Items → List Value
to_list nil = []
to_list (cons v vs) = v ∷ to_list vs

abbrev pub items : List Value → Items
items [] = nil
items (v ∷ vs) = cons v (items vs)

abbrev pub fields : Dict Value → Fields
fields [] = end
fields ((k, v) ∷ m) = field k v (fields m)

abbrev pub to_dict : Fields → Dict Value
to_dict end = []
to_dict (field k v m) = (k, v) ∷ to_dict m

-- The literals of the program: `[...]` and `{...}`.
abbrev pub array : List Value → Value
array vs = list (items vs)

abbrev pub object : Dict Value → Value
object m = dict (fields m)

-- d.get(k), for a dict
abbrev pub get_field : String → Fields → Option Value
get_field k end = none
get_field k (field j v m) = if str_eq j k then some v else get_field k m

-- d.get(k, default)
abbrev pub get_field_or : String → Value → Fields → Value
get_field_or k v m = elim (get_field k m) [ none ↦ v | some w ↦ w ]

-- `k in d`
abbrev pub has_field : String → Fields → Bool
has_field k m = elim (get_field k m) [ none ↦ false | some w ↦ true ]

abbrev pub is_none : Value → Bool
is_none null = true
is_none _ = false

-- `x == "s"`, for a text s
abbrev pub is_text : String → Value → Bool
is_text s (text t) = str_eq t s
is_text s _ = false

-- bool(x)
abbrev pub truthy : Value → Bool
truthy null = false
truthy (bool b) = b
truthy (int (pos n)) = not (n == 0)
truthy (int (negsuc n)) = true
truthy (real r) = not r.is_zero
truthy (text s) = not (str_eq s "")
truthy (list nil) = false
truthy (list (cons v vs)) = true
truthy (dict end) = false
truthy (dict (field k v m)) = true

-- str(x): a text is itself; the printed form of any other value is Python's own.
abbrev pub str : (Value → String) → Value → String
str repr (text s) = s
str repr v = repr v
