-- ===== src/Converse/Request/Schema/Closed.antt =====
-- The walk closes the objects of a schema: what holds of its results, and when it changes nothing.
use claude_code_proxy.Prelude.{
  Bool, true, false, not, ◌||◌, ◌&&◌, Option, none, some, ◌≡◌, ◌↔◌, sym, refl, ap, ◌∙◌, inl, inr,
  Bool-cases, and-true,
}
use claude_code_proxy.Json.{
  Value, null, bool, int, real, text, list, dict, Items, nil, cons, Fields, end, field, get_field,
}
use claude_code_proxy.Converse.Request.Schema.{
  at_kind, is_object_schema, close, inject, inject_items, inject_fields, inject_group,
  inject_values, normalize_schema,
}
use claude_code_proxy.Converse.Request.Schema.Spec.{
  Place, names, schema, other, place_of, at_place, is_object, is_object_name, is_some_value,
  is_false, says, forbids, permits_none, every, every_item, every_field, every_named, every_value,
}
use claude_code_proxy.Converse.Request.Schema.Walk.{
  kind_of_place, kind_of-place_of, has_field_lem, is_object_lem, type_at, additional_at, or_false,
  additional-close, type-close, every-inject,
}

-- A dict after the walk is an object schema if it was one before, and then has the member that it had, or
-- `false`.
is_object-changed : (b : Bool) (m : Fields) → is_object (close b (inject_fields m)) ≡ is_object m
unfolding is_object
is_object-changed b m = ap is_object_name (type-close b (inject_fields m) ∙ type_at m)

additional-changed :
    (m : Fields)
    → get_field "additionalProperties" (close true (inject_fields m))
      ≡ or_false (get_field "additionalProperties" m)
additional-changed m = additional-close (inject_fields m) ∙ ap or_false (additional_at m)

-- A condition that asks object schemas for something of their member, after the walk.
asked :
    (f g : Option Value → Bool)
    → ((o : Option Value) → f (or_false o) ≡ g o)
    → (m : Fields)
    → (not (is_object (close (is_object_schema m) (inject_fields m)))
        || f (get_field "additionalProperties" (close (is_object_schema m) (inject_fields m))))
      ≡ (not (is_object m) || g (get_field "additionalProperties" m))
asked f g h m = elim (Bool-cases (is_object m)) [
  | inr e ↦ rw (is_object-changed (is_object_schema m) m, e) refl
  | inl e ↦
      rw (is_object-changed (is_object_schema m) m, e, is_object_lem m)
        (rw e (ap f (additional-changed m) ∙ h (get_field "additionalProperties" m)))
]

says-changed : (m : Fields) → says (close (is_object_schema m) (inject_fields m)) ≡ true
unfolding says
says-changed m = asked is_some_value (λ o. true) given m ∙ or_true (not (is_object m))
  where
    given : (o : Option Value) → is_some_value (or_false o) ≡ true
    given none = refl
    given (some v) = refl

    or_true : (b : Bool) → (b || true) ≡ true
    or_true true = refl
    or_true false = refl

forbids-changed :
    (m : Fields) → forbids (close (is_object_schema m) (inject_fields m)) ≡ permits_none m
unfolding forbids permits_none
forbids-changed m = asked is_false (λ o. not (is_some_value o) || is_false o) given m
  where
    given : (o : Option Value) → is_false (or_false o) ≡ (not (is_some_value o) || is_false o)
    given none = refl
    given (some v) = refl

-- The condition that asks nothing holds everywhere.
at_true : {a b : Bool} (at : Place) → a ≡ true → b ≡ true → at_place at a b ≡ true
at_true names h k = h
at_true schema h k = k
at_true other h k = refl

mutual
  unfolding every

  nothing_asked : (v : Value) → every (λ m. true) v ≡ true
  nothing_asked (list vs) = nothing_asked_item vs
  nothing_asked (dict m) = nothing_asked_field m
  nothing_asked (null) = refl
  nothing_asked (bool b) = refl
  nothing_asked (int n) = refl
  nothing_asked (real r) = refl
  nothing_asked (text s) = refl

  nothing_asked_item : (vs : Items) → every_item (λ m. true) vs ≡ true
  nothing_asked_item nil = refl
  nothing_asked_item (cons v vs) = λ i. nothing_asked v i && nothing_asked_item vs i

  nothing_asked_field : (m : Fields) → every_field (λ m. true) m ≡ true
  nothing_asked_field end = refl
  nothing_asked_field (field k v m) = λ i.
      at_true (place_of k) (nothing_asked_named v) (nothing_asked v) i && nothing_asked_field m i

  nothing_asked_named : (v : Value) → every_named (λ m. true) v ≡ true
  nothing_asked_named (dict m) = nothing_asked_value m
  nothing_asked_named (list vs) = refl
  nothing_asked_named (null) = refl
  nothing_asked_named (bool b) = refl
  nothing_asked_named (int n) = refl
  nothing_asked_named (real r) = refl
  nothing_asked_named (text s) = refl

  nothing_asked_value : (m : Fields) → every_value (λ m. true) m ≡ true
  nothing_asked_value end = refl
  nothing_asked_value (field k v m) = λ i. nothing_asked v i && nothing_asked_value m i

inject_at :
    (at : Place) (v : Value)
    → (every says v ≡ true → inject v ≡ v)
    → (every_named says v ≡ true → inject_group v ≡ v)
    → at_place at (every_named says v) (every says v) ≡ true
    → at_kind (kind_of_place at) (inject_group v) (inject v) v ≡ v
inject_at names v f g h = g h
inject_at schema v f g h = f h
inject_at other v f g h = refl

close_kept :
    (b : Bool) (m : Fields)
    → is_some_value (get_field "additionalProperties" m) ≡ true
    → close b m ≡ m
unfolding close
close_kept false m h = refl
close_kept true m h = rw (has_field_lem "additionalProperties" m, h) refl

close_of_says : (m : Fields) → says m ≡ true → close (is_object_schema m) m ≡ m
unfolding says
close_of_says m h = elim (Bool-cases (is_object m)) [
  | inl b ↦ close_kept (is_object_schema m) m (rw b at h)
  | inr b ↦ ap (λ x. close x m) (is_object_lem m ∙ b) ∙ unfold close in refl
]

mutual
  unfolding every inject

  inject_of_closed : (v : Value) → every says v ≡ true → inject v ≡ v
  inject_of_closed (list vs) h = ap list (inject_items_of_closed vs h)
  inject_of_closed (dict m) h =
      let (s, c) = and-true (says m) (every_field says m) h in
      ap dict (ap (close (is_object_schema m)) (inject_fields_of_closed m c) ∙ close_of_says m s)
  inject_of_closed (null) h = refl
  inject_of_closed (bool b) h = refl
  inject_of_closed (int n) h = refl
  inject_of_closed (real r) h = refl
  inject_of_closed (text s) h = refl

  inject_items_of_closed : (vs : Items) → every_item says vs ≡ true → inject_items vs ≡ vs
  inject_items_of_closed nil h = refl
  inject_items_of_closed (cons v vs) h =
      let (a, b) = and-true (every says v) (every_item says vs) h in
      λ i. cons (inject_of_closed v a i) (inject_items_of_closed vs b i)

  inject_fields_of_closed : (m : Fields) → every_field says m ≡ true → inject_fields m ≡ m
  inject_fields_of_closed end h = refl
  inject_fields_of_closed (field k v m) h =
      let (a, b) =
        and-true (at_place (place_of k) (every_named says v) (every says v)) (every_field says m)
          h in
      λ i.
        field k
          ((ap (λ at. at_kind at (inject_group v) (inject v) v) (kind_of-place_of k)
              ∙ inject_at (place_of k) v (inject_of_closed v) (inject_group_of_closed v) a)
            i)
          (inject_fields_of_closed m b i)

  inject_group_of_closed : (v : Value) → every_named says v ≡ true → inject_group v ≡ v
  inject_group_of_closed (dict m) h = ap dict (inject_values_of_closed m h)
  inject_group_of_closed (list vs) h = refl
  inject_group_of_closed (null) h = refl
  inject_group_of_closed (bool b) h = refl
  inject_group_of_closed (int n) h = refl
  inject_group_of_closed (real r) h = refl
  inject_group_of_closed (text s) h = refl

  inject_values_of_closed : (m : Fields) → every_value says m ≡ true → inject_values m ≡ m
  inject_values_of_closed end h = refl
  inject_values_of_closed (field k v m) h =
      let (a, b) = and-true (every says v) (every_value says m) h in
      λ i. field k (inject_of_closed v a i) (inject_values_of_closed m b i)

-- Of the schema that `_normalize_schema` makes: every object schema in it has the member
-- `additionalProperties`, at any depth to which the code goes (`properties`, `$defs`, `definitions`, `items`,
-- `anyOf`, `allOf`, `oneOf`). All these members are `false` exactly if no object schema of the schema that was given
-- has another one: a member that is there is kept, also where it is not `false`. And the result is the schema that
-- was given exactly if each object schema of that one had the member.
pub normalize_schema-closed :
    (m : Fields)
    → (every says (normalize_schema m) ≡ true)
      × (every forbids (normalize_schema m) ≡ every permits_none (dict m))
      × ((every says (dict m) ≡ true) ↔ (normalize_schema m ≡ dict m))
unfolding normalize_schema
normalize_schema-closed m = (
  every_says-inject (dict m),
  every-inject forbids permits_none forbids-changed (dict m),
  (inject_of_closed (dict m), λ e. ap (every says) (sym e) ∙ every_says-inject (dict m)),
)
  where
    every_says-inject : (v : Value) → every says (inject v) ≡ true
    every_says-inject v = every-inject says (λ m. true) says-changed v ∙ nothing_asked v
