-- ===== src/Tests/Fixtures.antt =====
-- The user and the key that the tests share.
use claude_code_proxy.Prelude.{String, Option, true, none, some, [], ◌∷◌, str_eq, if◌then◌else◌}
use claude_code_proxy.Prelude.{ℕ, ◌+◌, ◌*◌, ◌/◌, leb}
use claude_code_proxy.Prelude.Int.{ℤ, pos, negsuc}
use claude_code_proxy.Quota.{Floats}
use claude_code_proxy.Domain.{UserRecord, VirtualKeyRecord, active}

abbrev pub alice : UserRecord
alice = record {
  id = "u1";
  email = "alice@example.com";
  display_name = "Alice";
  department = some "eng";
  cost_center = none;
  groups = "ml" ∷ [];
  proxy_access_enabled = true;
  is_active = true;
  created_at = 0;
  updated_at = 0;
}

abbrev pub alice_key : VirtualKeyRecord
alice_key = record {
  id = "k1";
  user_id = "u1";
  key_hash = "vk_abc";
  encrypted_key_blob = "enc::vk_abc";
  key_prefix = "vk_abc";
  status = active;
  created_at = 5;
  expires_at = none;
  revoked_at = none;
  last_used_at = none;
}

abbrev pub plain : String → String
plain key = key

abbrev pub found_key : String → Option VirtualKeyRecord
found_key hash = if str_eq hash "vk_abc" then some alice_key else none

abbrev to_ℕ : ℤ → ℕ
to_ℕ (pos n) = n * 100
to_ℕ (negsuc n) = 0

abbrev pub whole : Floats
whole = record {
  F = ℕ;
  of_int = to_ℕ;
  add = λ a b. a + b;
  mul = λ a b. a * b;
  div = λ a b. a / b;
  le = leb;
}
