-- ===== src/Converse/Request/Schema/Spec.antt =====
-- What a schema with closed objects is, apart from the walk that makes one: a condition on every object
-- at the places where the code looks for nested schemas.
use claude_code_proxy.Prelude.{
  String, Bool, true, false, not, Option, none, some, List, [], ◌∷◌, str_eq, ◌||◌, ◌&&◌,
  if◌then◌else◌,
}
use claude_code_proxy.Json.{
  Value, null, bool, int, real, text, list, dict, Items, nil, cons, Fields, end, field, get_field,
}

abbrev named_schemas : List String
named_schemas = "properties" ∷ "$defs" ∷ "definitions" ∷ []

abbrev nested_schemas : List String
nested_schemas = "items" ∷ "anyOf" ∷ "allOf" ∷ "oneOf" ∷ []

abbrev is_one_of : String → List String → Bool
is_one_of k [] = false
is_one_of k (n ∷ ns) = str_eq k n || is_one_of k ns

-- What stands at a key: schemas by their names, a schema or several, or something else.
pub data Place : Type 0 where
  names schema other : Place

unfoldable pub place_of : String → Place
place_of k =
    if is_one_of k named_schemas
    then names
    else if is_one_of k nested_schemas
    then schema
    else other

abbrev pub is_object_name : Option Value → Bool
is_object_name (some (text t)) = str_eq t "object"
is_object_name _ = false

-- An object schema
unfoldable pub is_object : Fields → Bool
is_object m = is_object_name (get_field "type" m)

abbrev pub is_some_value : Option Value → Bool
is_some_value none = false
is_some_value (some v) = true

abbrev pub is_false : Option Value → Bool
is_false (some (bool false)) = true
is_false _ = false

-- An object schema has the member `additionalProperties`.
unfoldable pub says : Fields → Bool
says m = not (is_object m) || is_some_value (get_field "additionalProperties" m)

-- In an object schema this member is `false`.
unfoldable pub forbids : Fields → Bool
forbids m = not (is_object m) || is_false (get_field "additionalProperties" m)

-- In an object schema this member is `false`, or there is none.
unfoldable pub permits_none : Fields → Bool
permits_none m =
    not (is_object m)
    || (not (is_some_value (get_field "additionalProperties" m))
        || is_false (get_field "additionalProperties" m))

-- The answer for a key, of those for the three places.
abbrev pub at_place : Place → Bool → Bool → Bool
at_place names n s = n
at_place schema n s = s
at_place other n s = true

-- A condition on a dict holds of every dict at the places of schemas.
module _ (p : Fields → Bool) where
  unfoldable mutual
    pub every : Value → Bool
    every (list vs) = every_item vs
    every (dict m) = p m && every_field m
    every (null) = true
    every (bool b) = true
    every (int n) = true
    every (real r) = true
    every (text s) = true

    pub every_item : Items → Bool
    every_item nil = true
    every_item (cons v vs) = every v && every_item vs

    pub every_field : Fields → Bool
    every_field end = true
    every_field (field k v m) = at_place (place_of k) (every_named v) (every v) && every_field m

    pub every_named : Value → Bool
    every_named (dict m) = every_value m
    every_named (list vs) = true
    every_named (null) = true
    every_named (bool b) = true
    every_named (int n) = true
    every_named (real r) = true
    every_named (text s) = true

    pub every_value : Fields → Bool
    every_value end = true
    every_value (field k v m) = every v && every_value m
