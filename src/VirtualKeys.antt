-- ===== src/VirtualKeys.antt =====
-- repositories/virtual_key_repository.py: the cache of active keys in DynamoDB and the ledger of
-- keys in PostgreSQL, each over the interface of its store.
pub mod Cache
pub mod Ledger
use claude_code_proxy.Prelude.{
  ℕ, ◌/◌, String, Bool, true, false, not, Option, none, some, List, [], ◌∷◌, Dict, lookup, filter,
  best, ltb, if◌then◌else◌, ◌&&◌,
}
use claude_code_proxy.Prelude.Int.{ℤ, pos, ltℤ}
use claude_code_proxy.Json.{Value, int, text, str}
use claude_code_proxy.Json.Convert.{int_of_value, item_of}
use claude_code_proxy.Exec.{Exec, Result, ok, raised, other, ◌>>=◌, ◌>>?◌, pure, lift}
use claude_code_proxy.Domain.{
  VirtualKeyRecord, VirtualKeyCacheEntry, VirtualKeyStatus, status_of_value, status_value,
  is_active_status,
}

-- VirtualKeyCacheRepository
pub record VirtualKeyCache (W : Type 0) : Type 0 where
  pub get_active_key : String → ℕ → Exec W (Option VirtualKeyCacheEntry)
  pub put_active_key : VirtualKeyCacheEntry → Exec W (Unit {0})
  pub invalidate_user : String → Exec W (Unit {0})

-- DynamoDbTable: items are dicts, found by their user_id
pub record DynamoDbTable (W : Type 0) : Type 0 where
  pub get_item : String → Exec W (Option (Dict Value))
  pub put_item : Dict Value → Exec W (Unit {0})
  pub delete_item : String → Exec W (Unit {0})

-- int(now.timestamp())
abbrev pub seconds : ℕ → ℕ
seconds now = now / 1000000

-- VirtualKeyStatus(value)
unfoldable pub status_of : Value → Result VirtualKeyStatus
status_of (text s) = elim (status_of_value s) [
  | none ↦ raised (other "ValueError")
  | some status ↦ ok status
]
status_of v = raised (other "ValueError")

module _ (repr : Value → String) where
  abbrev str_item : String → Dict Value → Result String
  str_item k item = item_of k item >>? λ v. ok (str repr v)

  abbrev pub entry_fields : Dict Value → ℤ → VirtualKeyStatus → Result (Option VirtualKeyCacheEntry)
  entry_fields item ttl status = str_item "user_id" item >>? λ user_id.
      str_item "virtual_key_id" item >>? λ virtual_key_id.
      str_item "encrypted_key_ref" item >>? λ encrypted_key_ref.
      str_item "key_prefix" item >>? λ key_prefix. ok (
        some (record {
          user_id = user_id;
          virtual_key_id = virtual_key_id;
          encrypted_key_ref = encrypted_key_ref;
          key_prefix = key_prefix;
          status = status;
          ttl = ttl;
        }))

  -- What `get_active_key` reads from an item.
  unfoldable pub entry_of_item : Dict Value → ℕ → Result (Option VirtualKeyCacheEntry)
  entry_of_item item now = (item_of "ttl" item >>? int_of_value) >>? λ ttl.
      if not (ltℤ (pos (seconds now)) ttl)
      then ok none
      else ((item_of "status" item >>? status_of) >>? λ status.
          if not (is_active_status status) then ok none else entry_fields item ttl status)

unfoldable pub item_of_entry : VirtualKeyCacheEntry → Dict Value
item_of_entry e =
    ("user_id", text e.user_id)
    ∷ ("virtual_key_id", text e.virtual_key_id)
    ∷ ("encrypted_key_ref", text e.encrypted_key_ref)
    ∷ ("key_prefix", text e.key_prefix)
    ∷ ("status", text (status_value e.status))
    ∷ ("ttl", int e.ttl)
    ∷ []

module _ {W : Type 0} (repr : Value → String) (table : DynamoDbTable W) where
  unfoldable pub of_item : ℕ → Option (Dict Value) → Result (Option VirtualKeyCacheEntry)
  of_item now none = ok none
  of_item now (some item) = entry_of_item repr item now

  -- DynamoDbVirtualKeyCache
  unfoldable pub dynamo_get_active_key : String → ℕ → Exec W (Option VirtualKeyCacheEntry)
  unfolding of_item
  dynamo_get_active_key user_id now = do item ← table.get_item user_id; lift (of_item now item)

  unfoldable pub dynamo_put_active_key : VirtualKeyCacheEntry → Exec W (Unit {0})
  dynamo_put_active_key e = table.put_item (item_of_entry e)

  unfoldable pub dynamo_invalidate_user : String → Exec W (Unit {0})
  dynamo_invalidate_user user_id = table.delete_item user_id

  abbrev pub dynamo_cache : VirtualKeyCache W
  dynamo_cache = record {
    get_active_key = dynamo_get_active_key;
    put_active_key = dynamo_put_active_key;
    invalidate_user = dynamo_invalidate_user;
  }

-- PostgresVirtualKeyStore
pub record VirtualKeyStore (W : Type 0) : Type 0 where
  pub list_virtual_keys_for_user : String → Exec W (List VirtualKeyRecord)
  pub get_virtual_key_by_hash : String → Exec W (Option VirtualKeyRecord)
  pub save_virtual_key : VirtualKeyRecord → Exec W (Unit {0})

abbrev pub is_active_key : VirtualKeyRecord → Bool
is_active_key r = is_active_status r.status

abbrev pub newer : VirtualKeyRecord → VirtualKeyRecord → Bool
newer a b = ltb b.created_at a.created_at

-- PostgresVirtualKeyRepository
module _ {W : Type 0} (store : VirtualKeyStore W) where
  unfoldable pub get_key_by_hash : String → Exec W (Option VirtualKeyRecord)
  get_key_by_hash key_hash = store.get_virtual_key_by_hash key_hash

  unfoldable pub get_active_key_for_user : String → Exec W (Option VirtualKeyRecord)
  get_active_key_for_user user_id = do
    records ← store.list_virtual_keys_for_user user_id
    pure (best newer (filter is_active_key records))

  unfoldable pub save_key : VirtualKeyRecord → Exec W (Unit {0})
  save_key r = store.save_virtual_key r
