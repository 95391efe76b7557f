-- ===== src/Converse/Request/Schema.antt =====
-- proxy/bedrock_converse/request_builder.py: the walk that closes the objects of a JSON schema. The
-- code changes a deep copy in place; the model returns the changed copy.
pub mod Spec
pub mod Walk
pub mod Closed
use claude_code_proxy.Prelude.{
  String, Bool, true, false, Option, none, some, str_eq, ◌||◌, if◌then◌else◌,
}
use claude_code_proxy.Json.{
  Value, null, bool, int, real, text, list, dict, Items, nil, cons, Fields, end, field,
  get_field_or, has_field, is_text,
}

-- What the walk does at a key: go into the values of a dict, go into the value, or nothing.
pub data Kind : Type 0 where
  group nested plain : Kind

unfoldable pub kind_of : String → Kind
kind_of k =
    if str_eq k "properties" || str_eq k "$defs" || str_eq k "definitions"
    then group
    else if str_eq k "items" || str_eq k "anyOf" || str_eq k "allOf" || str_eq k "oneOf"
    then nested
    else plain

-- node.get("type") == "object"
unfoldable pub is_object_schema : Fields → Bool
is_object_schema m = is_text "object" (get_field_or "type" null m)

-- m[k] = v, for a key that is not there
abbrev pub append_field : String → Value → Fields → Fields
append_field k v end = field k v end
append_field k v (field j w m) = field j w (append_field k v m)

-- node.setdefault("additionalProperties", False), for an object schema
unfoldable pub close : Bool → Fields → Fields
close false m = m
close true m =
    if has_field "additionalProperties" m
    then m
    else append_field "additionalProperties" (bool false) m

-- What the walk puts at a key, of the value gone into as a group, of the value gone into, and of the
-- value itself.
abbrev pub at_kind {ℓ} : {A : Type ℓ} → Kind → A → A → A → A
at_kind group g n p = g
at_kind nested g n p = n
at_kind plain g n p = p

-- _inject_additional_properties_false
unfoldable mutual
  unfolding kind_of is_object_schema close

  pub inject : Value → Value
  inject (list vs) = list (inject_items vs)
  inject (dict m) = dict (close (is_object_schema m) (inject_fields m))
  inject (null) = null
  inject (bool b) = bool b
  inject (int n) = int n
  inject (real r) = real r
  inject (text s) = text s

  pub inject_items : Items → Items
  inject_items nil = nil
  inject_items (cons v vs) = cons (inject v) (inject_items vs)

  pub inject_fields : Fields → Fields
  inject_fields end = end
  inject_fields (field k v m) =
      field k (at_kind (kind_of k) (inject_group v) (inject v) v) (inject_fields m)

  pub inject_group : Value → Value
  inject_group (dict m) = dict (inject_values m)
  inject_group (list vs) = list vs
  inject_group (null) = null
  inject_group (bool b) = bool b
  inject_group (int n) = int n
  inject_group (real r) = real r
  inject_group (text s) = text s

  pub inject_values : Fields → Fields
  inject_values end = end
  inject_values (field k v m) = field k (inject v) (inject_values m)

-- _normalize_schema, of a dict
unfoldable pub normalize_schema : Fields → Value
normalize_schema schema = inject (dict schema)
