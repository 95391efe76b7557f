-- ===== src/Tests/VirtualKeys.antt =====
-- security/ and repositories/virtual_key_repository.py over a table that holds one item.
use claude_code_proxy.Prelude.{String, Option, none, some, List, [], ◌∷◌, Dict, lookup, ◌≡◌, refl}
use claude_code_proxy.Prelude.Int.{pos}
use claude_code_proxy.Json.{Value}
use claude_code_proxy.Exec.{Result, ok}
use claude_code_proxy.Json.Convert.{int_of_value}
use claude_code_proxy.Domain.{
  status_of_value, status_value, VirtualKeyRecord, VirtualKeyCacheEntry, active, revoked,
}
use claude_code_proxy.VirtualKeys.{
  DynamoDbTable, VirtualKeyStore, dynamo_get_active_key, of_item, status_of, entry_of_item,
  item_of_entry, get_active_key_for_user,
}
use claude_code_proxy.VirtualKeys.Cache.{
  IsServed, live, dynamo_get_active_key-IsServed, entry_of_item-item_of_entry,
}
use claude_code_proxy.VirtualKeys.Ledger.{NewestActive, get_active_key_for_user-NewestActive}
use claude_code_proxy.Tests.Fixtures.{alice_key}

abbrev shown : Value → String
shown v = "?"

abbrev entry : VirtualKeyCacheEntry
entry = record {
  user_id = "u1";
  virtual_key_id = "k1";
  encrypted_key_ref = "enc::vk_abc";
  key_prefix = "vk_abc";
  status = active;
  ttl = pos 900;
}

-- a table with room for one item, whatever its key
abbrev one_item : DynamoDbTable (Option (Dict Value))
one_item = record {
  get_item = λ user_id w. (ok w, w);
  put_item = λ item w. (ok tt, some item);
  delete_item = λ user_id w. (ok tt, none);
}

abbrev item : Dict Value
item = item_of_entry entry

served :
    dynamo_get_active_key shown one_item "u1" 899999999 (some item) ≡ (ok (some entry), some item)
unfolding dynamo_get_active_key of_item entry_of_item item_of_entry lookup status_of status_of_value
    int_of_value status_value
served = refl

dynamo_get_active_key-IsServed_example :
    (read : Dict Value) × (one_item.get_item "u1" (some item) ≡ (ok (some read), some item))
    × IsServed shown read 899999999 entry
dynamo_get_active_key-IsServed_example =
    dynamo_get_active_key-IsServed shown one_item "u1" 899999999 entry (some item) (some item)
      served

entry_of_item-item_of_entry_example :
    entry_of_item shown (item_of_entry entry) 899999999 ≡ ok (live entry 899999999)
entry_of_item-item_of_entry_example = entry_of_item-item_of_entry shown entry 899999999

live_before : live entry 899999999 ≡ some entry
live_before = refl

dead_after : live entry 900000000 ≡ none
dead_after = refl

abbrev old_key : VirtualKeyRecord
old_key = record {
  id = "k0";
  user_id = "u1";
  key_hash = "vk_old";
  encrypted_key_blob = "enc::vk_old";
  key_prefix = "vk_old";
  status = active;
  created_at = 2;
  expires_at = none;
  revoked_at = none;
  last_used_at = none;
}

abbrev revoked_key : VirtualKeyRecord
revoked_key = record {
  id = "k2";
  user_id = "u1";
  key_hash = "vk_new";
  encrypted_key_blob = "enc::vk_new";
  key_prefix = "vk_new";
  status = revoked;
  created_at = 9;
  expires_at = none;
  revoked_at = some 10;
  last_used_at = none;
}

abbrev keys : List VirtualKeyRecord
keys = old_key ∷ alice_key ∷ revoked_key ∷ []

abbrev three_keys : VirtualKeyStore (Unit {0})
three_keys = record {
  list_virtual_keys_for_user = λ user_id w. (ok keys, w);
  get_virtual_key_by_hash = λ hash w. (ok none, w);
  save_virtual_key = λ r w. (ok tt, w);
}

newest_active : get_active_key_for_user three_keys "u1" tt ≡ (ok (some alice_key), tt)
unfolding get_active_key_for_user
newest_active = refl

get_active_key_for_user-NewestActive_example : NewestActive keys (some alice_key)
get_active_key_for_user-NewestActive_example =
    get_active_key_for_user-NewestActive three_keys "u1" tt tt tt keys (some alice_key) refl
      newest_active

abbrev verbatim : String → String
verbatim s = s

abbrev verbatim_back : String → Result String
verbatim_back s = ok s
