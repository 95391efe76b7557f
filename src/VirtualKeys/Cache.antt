-- ===== src/VirtualKeys/Cache.antt =====
-- What the cache gives out: what was put into it, while it lives.
use mathlib.Core.Path.{subst}
use claude_code_proxy.Prelude.{
  ℕ, String, true, ◌&&◌, Option, none, some, Dict, lookup, ◌≡◌, refl, ap, ◌∙◌, inl, inr, Bool-cases,
  some_inj, if◌then◌else◌,
}
use claude_code_proxy.Prelude.Int.{ℤ, pos, ltℤ}
use claude_code_proxy.Json.{Value, text, str}
use claude_code_proxy.Json.Convert.{int_of_value, item_of, or_key_error}
use claude_code_proxy.Exec.{Result, ok, ◌>>?◌, step_ok, ok_inj, bind_ok}
use claude_code_proxy.Domain.{
  VirtualKeyCacheEntry, VirtualKeyStatus, active, disabled, revoked, is_active_status,
  status_of_value, status_value,
}
use claude_code_proxy.VirtualKeys.{
  DynamoDbTable, dynamo_get_active_key, of_item, entry_fields, entry_of_item, item_of_entry,
  seconds, status_of,
}

-- What a cache may give out of an entry at a time: the entry, while it is active and its `ttl` is
-- in the future.
abbrev pub live : VirtualKeyCacheEntry → ℕ → Option VirtualKeyCacheEntry
live e now = if ltℤ (pos (seconds now)) e.ttl && is_active_status e.status then some e else none

status_of-status_value : (s : VirtualKeyStatus) → status_of (text (status_value s)) ≡ ok s
unfolding status_of status_value status_of_value
status_of-status_value active = refl
status_of-status_value disabled = refl
status_of-status_value revoked = refl

-- An item that was written from an entry is read as that entry while it lives, and else as nothing.
pub entry_of_item-item_of_entry :
    (repr : Value → String) (e : VirtualKeyCacheEntry) (now : ℕ)
    → entry_of_item repr (item_of_entry e) now ≡ ok (live e now)
unfolding entry_of_item item_of_entry lookup int_of_value
entry_of_item-item_of_entry repr e now = elim (Bool-cases (ltℤ (pos (seconds now)) e.ttl)) [
  | inr t ↦ rw t
  | inl t ↦ rw t (
      rw (status_of-status_value e.status)
        (elim (Bool-cases (is_active_status e.status)) [ inl a ↦ rw a | inr a ↦ rw a ]))
]

-- What an item of the table shows at a key, as a text.
abbrev pub Shows : (Value → String) → Dict Value → String → String → Type 0
Shows repr item k s = (v : Value) × (lookup k item ≡ some v) × (str repr v ≡ s)

-- An entry that may be given out at a time, and the item that it is read from.
pub record IsServed (repr : Value → String) (item : Dict Value) (now : ℕ) (e : VirtualKeyCacheEntry)
    : Type 0 where
  pub is_active : e.status ≡ active
  pub not_expired : ltℤ (pos (seconds now)) e.ttl ≡ true
  pub status : (v : Value) × (lookup "status" item ≡ some v) × (status_of v ≡ ok active)
  pub ttl : (v : Value) × (lookup "ttl" item ≡ some v) × (int_of_value v ≡ ok e.ttl)
  pub user_id : Shows repr item "user_id" e.user_id
  pub virtual_key_id : Shows repr item "virtual_key_id" e.virtual_key_id
  pub encrypted_key_ref : Shows repr item "encrypted_key_ref" e.encrypted_key_ref
  pub key_prefix : Shows repr item "key_prefix" e.key_prefix

item_of_ok :
    (k : String) (item : Dict Value) (v : Value) → item_of k item ≡ ok v → lookup k item ≡ some v
item_of_ok k item v h = found (lookup k item) h
  where
    found : (o : Option Value) → or_key_error o ≡ ok v → o ≡ some v
    found none h = cc h
    found (some x) h = ap some (ok_inj h)

read_ok :
    {B : Type 0} (k : String) (item : Dict Value) (f : Value → Result B) (b : B)
    → (item_of k item >>? f) ≡ ok b
    → (v : Value) × (lookup k item ≡ some v) × (f v ≡ ok b)
read_ok k item f b h =
    let (v, q, r) = step_ok (item_of k item) f b h in (v, item_of_ok k item v q, r)

shown_ok :
    (repr : Value → String) (k : String) (item : Dict Value) (s : String)
    → (item_of k item >>? λ v. ok (str repr v)) ≡ ok s
    → Shows repr item k s
shown_ok repr k item s h =
    let (v, q, r) = read_ok k item (λ v. ok (str repr v)) s h in (v, q, ok_inj r)

active_of_true : (s : VirtualKeyStatus) → is_active_status s ≡ true → s ≡ active
active_of_true active h = refl
active_of_true disabled h = cc h
active_of_true revoked h = cc h

-- What is read from an item whose `ttl` and status let it be given out.
fields-IsServed :
    (repr : Value → String) (item : Dict Value) (now : ℕ) (ttl : ℤ) (status : VirtualKeyStatus)
    (e : VirtualKeyCacheEntry)
    → ltℤ (pos (seconds now)) ttl ≡ true
    → is_active_status status ≡ true
    → (item_of "ttl" item >>? int_of_value) ≡ ok ttl
    → (item_of "status" item >>? status_of) ≡ ok status
    → entry_fields repr item ttl status ≡ ok (some e)
    → IsServed repr item now e
fields-IsServed repr item now ttl status e b a t s h =
    let (user, q1, h1) = step_ok _ _ (some e) h in
    let (id_, q2, h2) = step_ok _ _ (some e) h1 in
    let (key, q3, h3) = step_ok _ _ (some e) h2 in
    let (shown, q4, h4) = step_ok _ _ (some e) h3 in
    let at_active = active_of_true status a in
    subst (IsServed repr item now) (some_inj (ok_inj h4)) (record {
      is_active = at_active;
      not_expired = b;
      status = read_ok "status" item status_of active (s ∙ ap ok at_active);
      ttl = read_ok "ttl" item int_of_value ttl t;
      user_id = shown_ok repr "user_id" item user q1;
      virtual_key_id = shown_ok repr "virtual_key_id" item id_ q2;
      encrypted_key_ref = shown_ok repr "encrypted_key_ref" item key q3;
      key_prefix = shown_ok repr "key_prefix" item shown q4;
    })

entry_of_item-IsServed :
    (repr : Value → String) (item : Dict Value) (now : ℕ) (e : VirtualKeyCacheEntry)
    → entry_of_item repr item now ≡ ok (some e)
    → IsServed repr item now e
unfolding entry_of_item
entry_of_item-IsServed repr item now e h =
    let (ttl, t, h1) = step_ok (item_of "ttl" item >>? int_of_value) _ (some e) h in
    elim (Bool-cases (ltℤ (pos (seconds now)) ttl)) [
      | inr b ↦ cc (rw b at h1)
      | inl b ↦
          let (status, s, h2) =
            step_ok (item_of "status" item >>? status_of) _ (some e) (rw b at h1) in
          elim (Bool-cases (is_active_status status)) [
            | inr a ↦ cc (rw a at h2)
            | inl a ↦ fields-IsServed repr item now ttl status e b a t s (rw a at h2)
          ]
    ]

-- Whatever the table answers, an entry that the DynamoDB cache gives out is the one of the item that this
-- call read, the item's status is active, and its `ttl` is later than the time of the call.
pub dynamo_get_active_key-IsServed :
    {W : Type 0} (repr : Value → String) (table : DynamoDbTable W) (user_id : String) (now : ℕ)
    (e : VirtualKeyCacheEntry) (w w' : W)
    → dynamo_get_active_key repr table user_id now w ≡ (ok (some e), w')
    → (item : Dict Value) × (table.get_item user_id w ≡ (ok (some item), w'))
      × IsServed repr item now e
unfolding dynamo_get_active_key
dynamo_get_active_key-IsServed repr table user_id now e w w' h =
    let (o, w1, q, h1) = bind_ok (table.get_item user_id) _ w w' (some e) h in
    found o w1 q (ap (λ x. x.0) h1) (ap (λ x. x.1) h1)
  where
    found :
        (o : Option (Dict Value)) (w1 : _)
        → table.get_item user_id w ≡ (ok o, w1)
        → of_item repr table now o ≡ ok (some e)
        → w1 ≡ w'
        → (item : Dict Value) × (table.get_item user_id w ≡ (ok (some item), w'))
          × IsServed repr item now e
    found none w1 q h v = cc h
    found (some item) w1 q h v =
        (item, q ∙ ap (λ x. (ok (some item), x)) v, entry_of_item-IsServed repr item now e h)
