-- ===== src/Converse/Request/Schema/Walk.antt =====
-- What the walk does to one dict, and how a condition on the dicts of its result is one on those that it
-- was given.
use claude_code_proxy.Prelude.{
  String, Bool, true, false, ◌&&◌, Option, none, some, str_eq, str_eq_iff, ◌≡◌, ap, ◌∙◌, refl, inl,
  inr, arith, Bool-cases, Option-cases,
}
use claude_code_proxy.Json.{
  Value, null, bool, int, real, text, list, dict, Items, nil, cons, Fields, end, field, get_field,
  has_field, is_text,
}
use claude_code_proxy.Converse.Request.Schema.{
  Kind, group, nested, plain, kind_of, at_kind, is_object_schema, append_field, close, inject,
  inject_items, inject_fields, inject_group, inject_values,
}
use claude_code_proxy.Converse.Request.Schema.Spec.{
  Place, names, schema, other, place_of, at_place, is_object, is_object_name, is_some_value, every,
  every_item, every_field, every_named, every_value,
}

abbrev pub kind_of_place : Place → Kind
kind_of_place names = group
kind_of_place schema = nested
kind_of_place other = plain

-- The walk goes to the places of schemas.
pub kind_of-place_of : (k : String) → kind_of k ≡ kind_of_place (place_of k)
unfolding kind_of place_of
kind_of-place_of k = ground arith

pub is_object_lem : (m : Fields) → is_object_schema m ≡ is_object m
unfolding is_object_schema is_object
is_object_lem m = by_type (get_field "type" m)
  where
    by_type :
        (o : Option Value)
        → is_text "object" (elim o [ none ↦ null | some w ↦ w ]) ≡ is_object_name o
    by_type none = refl
    by_type (some null) = refl
    by_type (some (bool b)) = refl
    by_type (some (int n)) = refl
    by_type (some (real r)) = refl
    by_type (some (text s)) = refl
    by_type (some (list vs)) = refl
    by_type (some (dict m)) = refl

-- What stands at a key that the walk does not go to stays.
other_at :
    (k j : String) (v : Value)
    → kind_of j ≡ plain
    → str_eq k j ≡ true
    → at_kind (kind_of k) (inject_group v) (inject v) v ≡ v
other_at k j v p e = rw ((str_eq_iff k j).0 e, p)

get_field-inject_fields :
    (j : String) (m : Fields) → kind_of j ≡ plain → get_field j (inject_fields m) ≡ get_field j m
unfolding inject_fields
get_field-inject_fields j end p = refl
get_field-inject_fields j (field k v m) p = elim (Bool-cases (str_eq k j)) [
  | inl e ↦ rw (e, other_at k j v p e)
  | inr e ↦ rw (e) (get_field-inject_fields j m p)
]

pub type_at : (m : Fields) → get_field "type" (inject_fields m) ≡ get_field "type" m
type_at m = get_field-inject_fields "type" m (unfold kind_of in refl)

pub additional_at :
    (m : Fields)
    → get_field "additionalProperties" (inject_fields m) ≡ get_field "additionalProperties" m
additional_at m = get_field-inject_fields "additionalProperties" m (unfold kind_of in refl)

pub is_object-inject_fields : (m : Fields) → is_object (inject_fields m) ≡ is_object m
unfolding is_object
is_object-inject_fields m = ap is_object_name (type_at m)

type_of_append :
    (v : Value) (m : Fields)
    → get_field "type" (append_field "additionalProperties" v m) ≡ get_field "type" m
type_of_append v end = refl
type_of_append v (field k w m) = ground (arith, type_of_append v m)

additional_of_append :
    (v : Value) (m : Fields)
    → get_field "additionalProperties" m ≡ none
    → get_field "additionalProperties" (append_field "additionalProperties" v m) ≡ some v
additional_of_append v end h = refl
additional_of_append v (field k w m) h = elim (Bool-cases (str_eq k "additionalProperties")) [
  | inl e ↦ cc (rw e at h)
  | inr e ↦ rw (e) (additional_of_append v m (rw e at h))
]

pub has_field_lem : (k : String) (m : Fields) → has_field k m ≡ is_some_value (get_field k m)
has_field_lem k m = given (get_field k m)
  where
    given : (o : Option Value) → (elim o [ none ↦ false | some w ↦ true ]) ≡ is_some_value o
    given none = refl
    given (some v) = refl

-- The member of a closed dict, and what it is for.
abbrev pub or_false : Option Value → Option Value
or_false none = some (bool false)
or_false (some v) = some v

pub additional-close :
    (m : Fields)
    → get_field "additionalProperties" (close true m)
      ≡ or_false (get_field "additionalProperties" m)
unfolding close
additional-close m = elim (Option-cases (get_field "additionalProperties" m)) [
  | inl e ↦
      rw (e, has_field_lem "additionalProperties" m, e) (additional_of_append (bool false) m e)
  | inr (v, e) ↦ rw (e, has_field_lem "additionalProperties" m, e) e
]

pub type-close : (b : Bool) (m : Fields) → get_field "type" (close b m) ≡ get_field "type" m
unfolding close
type-close false m = refl
type-close true m = elim (Bool-cases (has_field "additionalProperties" m)) [
  | inl f ↦ ground (arith, f)
  | inr f ↦ ground (arith, f, type_of_append (bool false) m)
]

other_additional : place_of "additionalProperties" ≡ other
unfolding place_of
other_additional = refl

module _ (p : Fields → Bool) where
  every_field-append_field :
      (v : Value) (m : Fields)
      → every_field p (append_field "additionalProperties" v m) ≡ every_field p m
  unfolding every_field
  every_field-append_field v end = rw other_additional
  every_field-append_field v (field k w m) = rw (every_field-append_field v m)

  every_field-close : (b : Bool) (m : Fields) → every_field p (close b m) ≡ every_field p m
  unfolding close
  every_field-close false m = refl
  every_field-close true m = elim (Bool-cases (has_field "additionalProperties" m)) [
    | inl f ↦ ground (arith, f)
    | inr f ↦ ground (arith, f, every_field-append_field (bool false) m)
  ]

-- If `p` holds of a dict that the walk has changed as `q` does of the dict before, then it holds of all
-- dicts of the result as `q` does of those before.
module _ (p q : Fields → Bool)
    (changed : (m : Fields) → p (close (is_object_schema m) (inject_fields m)) ≡ q m) where
  every_at :
      (at : Place) (v : Value)
      → every p (inject v) ≡ every q v
      → every_named p (inject_group v) ≡ every_named q v
      → at_place at
          (every_named p (at_kind (kind_of_place at) (inject_group v) (inject v) v))
          (every p (at_kind (kind_of_place at) (inject_group v) (inject v) v))
        ≡ at_place at (every_named q v) (every q v)
  every_at names v h g = g
  every_at schema v h g = h
  every_at other v h g = refl

  mutual
    unfolding every inject

    pub every-inject : (v : Value) → every p (inject v) ≡ every q v
    every-inject (list vs) = every_item-inject_items vs
    every-inject (dict m) = λ i.
        changed m i
        && (every_field-close p (is_object_schema m) (inject_fields m)
              ∙ every_field-inject_fields m)
            i
    every-inject (null) = refl
    every-inject (bool b) = refl
    every-inject (int n) = refl
    every-inject (real r) = refl
    every-inject (text s) = refl

    every_item-inject_items : (vs : Items) → every_item p (inject_items vs) ≡ every_item q vs
    every_item-inject_items nil = refl
    every_item-inject_items (cons v vs) = λ i. every-inject v i && every_item-inject_items vs i

    every_field-inject_fields : (m : Fields) → every_field p (inject_fields m) ≡ every_field q m
    every_field-inject_fields end = refl
    every_field-inject_fields (field k v m) = rw (kind_of-place_of k) (λ i.
        every_at (place_of k) v (every-inject v) (every_named-inject_group v) i
        && every_field-inject_fields m i)

    every_named-inject_group : (v : Value) → every_named p (inject_group v) ≡ every_named q v
    every_named-inject_group (dict m) = every_value-inject_values m
    every_named-inject_group (list vs) = refl
    every_named-inject_group (null) = refl
    every_named-inject_group (bool b) = refl
    every_named-inject_group (int n) = refl
    every_named-inject_group (real r) = refl
    every_named-inject_group (text s) = refl

    every_value-inject_values : (m : Fields) → every_value p (inject_values m) ≡ every_value q m
    every_value-inject_values end = refl
    every_value-inject_values (field k v m) = λ i. every-inject v i && every_value-inject_values m i
