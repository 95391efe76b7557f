-- ===== src/Tests/Admin.antt =====
-- api/admin_*.py over a ledger that is a dictionary of keys by their hash, with one operator.
use claude_code_proxy.Prelude.{
  String, true, Option, none, some, [], ◌∷◌, ◌≡◌, ◌≢◌, ◌↔◌, refl, ap, ◌∙◌, Dict, lookup, insert,
  lookup-insert, lookup-insert_self, str_eq, str_eq_iff, if◌then◌else◌, inl, inr, Bool-cases,
}
use mathlib.Core.Bool.{false≢true}
use claude_code_proxy.Prelude.Int.{pos}
use claude_code_proxy.Exec.{Result, ok}
use claude_code_proxy.Domain.{
  VirtualKeyRecord, AdminIdentityRecord, active, disabled, revoked, month, tokens,
}
use claude_code_proxy.Auth.{AuthRepositories, extract_virtual_key}
use claude_code_proxy.Admin.{AdminIdentityStore, AdminActor, require_admin_role}
use claude_code_proxy.Admin.Access.{IsActor, require_admin_role-IsActor}
use claude_code_proxy.Admin.VirtualKeys.{
  LifecycleServices, revoke, rotate, invalidate, key_or_not_found, replace_key, require_key, retire,
}
use claude_code_proxy.Admin.VirtualKeys.Lifecycle.{
  LedgerLaws, KeepsLedger, IsRefused, IsRotated, revoke-IsRefused, rotate-IsRotated,
}
use claude_code_proxy.Admin.Budgets.{BudgetPolicyCreateRequest, BudgetServices}
use claude_code_proxy.Tests.Fixtures.{alice, alice_key, plain}
use claude_code_proxy.Text.{has_prefix, is_space, partition_blank, strip, take_chars}
use claude_code_proxy.Keys.{get_virtual_key_prefix}

abbrev pub Ledger : Type 0
Ledger = Dict VirtualKeyRecord

abbrev by_id : String → Ledger → Option VirtualKeyRecord
by_id id_ [] = none
by_id id_ ((h, r) ∷ ledger) = if str_eq r.id id_ then some r else by_id id_ ledger

abbrev pub services : LifecycleServices Ledger
services = record {
  get_key = λ id_ w. (ok (by_id id_ w), w);
  save_key = λ r w. (ok tt, insert r.key_hash r w);
  invalidate_token_service_cache = λ user w. (ok tt, w);
  invalidate_proxy_auth_cache = λ id_ w. (ok tt, w);
  encrypt = λ key w. (ok "blob", w);
  clock = λ w. (ok 9, w);
  key_generator = λ w. (ok "vk_new", w);
  key_id_generator = λ w. (ok "k2", w);
  hash_virtual_key = plain;
}

abbrev repositories : AuthRepositories Ledger
repositories = record {
  get_key_by_hash = λ hash w. (ok (lookup hash w), w);
  get_user = λ id_ w. (ok (some alice), w);
}

abbrev pub ledger : Ledger
ledger = ("vk_abc", alice_key) ∷ []

abbrev IsHeld : VirtualKeyRecord → Ledger → Type 0
IsHeld r w = lookup r.key_hash w ≡ some r

world_of : (w w' : Ledger) → ◌≡◌ {A = Result (Unit {0}) × Ledger} (ok tt, w) (ok tt, w') → w ≡ w'
world_of w w' h = ap (λ z. z.1) h

services-LedgerLaws : LedgerLaws services repositories
services-LedgerLaws = record {
  holds = IsHeld;
  saved =
      λ r w w' h. rw (← world_of (insert r.key_hash r w) w' h) (lookup-insert_self r.key_hash r w);
  found = λ r w h. rw h refl;
  kept_by_save = λ r r' w w' n h held. rw (← world_of (insert r'.key_hash r' w) w' h) (
      lookup-insert r'.key_hash r.key_hash r' w
      ∙ other r'.key_hash r.key_hash n (some r') (lookup r.key_hash w)
      ∙ held);
  kept_by_token_cache = λ r user w w' h held. rw (← world_of w w' h) held;
  kept_by_auth_cache = λ r id_ w w' h held. rw (← world_of w w' h) held;
}
  where
    other : {A : Type 0} (s t : String) → s ≢ t → (x y : A) → (if str_eq s t then x else y) ≡ y
    other s t n x y = elim (Bool-cases (str_eq s t)) [
      | inl b ↦ absurd (n ((str_eq_iff s t).0 b))
      | inr b ↦ rw b refl
    ]

abbrev revoked_key : VirtualKeyRecord
revoked_key = record alice_key { status = revoked; revoked_at = some 9 }

abbrev after_revocation : Ledger
after_revocation = ("vk_abc", revoked_key) ∷ []

revoked_alice : revoke services "k1" ledger ≡ (ok revoked_key, after_revocation)
unfolding revoke require_key key_or_not_found retire invalidate insert
revoked_alice = refl

carried : extract_virtual_key (some "Bearer vk_abc") "r1" ≡ ok "vk_abc"
unfolding extract_virtual_key strip is_space partition_blank has_prefix
carried = refl

revoke-IsRefused_example :
    (revoked_key.status ≡ revoked)
    × IsRefused services repositories services-LedgerLaws revoked_key
        (some "Bearer vk_abc")
        "r1"
        after_revocation
revoke-IsRefused_example =
    revoke-IsRefused services repositories services-LedgerLaws "k1" revoked_key
      (some "Bearer vk_abc") "vk_abc" "r1" ledger after_revocation revoked_alice carried refl

abbrev disabled_key : VirtualKeyRecord
disabled_key = record alice_key { status = disabled }

abbrev new_key : VirtualKeyRecord
new_key = record {
  id = "k2";
  user_id = "u1";
  key_hash = "vk_new";
  encrypted_key_blob = "blob";
  key_prefix = "vk_new";
  status = active;
  created_at = 9;
  expires_at = none;
  revoked_at = none;
  last_used_at = none;
}

abbrev after_rotation : Ledger
after_rotation = ("vk_abc", disabled_key) ∷ ("vk_new", new_key) ∷ []

rotated_alice : rotate services "k1" ledger ≡ (ok (disabled_key, new_key), after_rotation)
unfolding rotate require_key key_or_not_found retire invalidate replace_key get_virtual_key_prefix
    insert take_chars
rotated_alice = refl

services-KeepsLedger : KeepsLedger services repositories services-LedgerLaws
services-KeepsLedger = record {
  by_generator = λ r k w w' h held. rw (← ap (λ z. z.1) h) held;
  by_clock = λ r k w w' h held. rw (← ap (λ z. z.1) h) held;
  by_ids = λ r k w w' h held. rw (← ap (λ z. z.1) h) held;
  by_encryption = λ r k blob w w' h held. rw (← ap (λ z. z.1) h) held;
}

other_hash : new_key.key_hash ≢ disabled_key.key_hash
other_hash h = false≢true ((str_eq_iff "vk_new" "vk_abc").1 h)

rotate-IsRotated_example :
    IsRotated services repositories services-LedgerLaws disabled_key new_key
      (some "Bearer vk_abc")
      "r1"
      after_rotation
rotate-IsRotated_example =
    rotate-IsRotated services repositories services-LedgerLaws services-KeepsLedger "k1"
      disabled_key new_key (some "Bearer vk_abc") "vk_abc" "r1" ledger after_rotation rotated_alice
      other_hash carried refl

abbrev operator : AdminIdentityRecord
operator = record {
  principal_id = "root";
  role = "operator";
  is_active = true;
  created_at = 0;
  updated_at = 0;
}

abbrev pub identities : AdminIdentityStore Ledger
identities name w = (ok (if str_eq name "root" then some operator else none), w)

abbrev root : AdminActor
root = record { principal_id = "root"; role = "operator" }

require_admin_role-IsActor_example :
    (require_admin_role (some identities) ("operator" ∷ "auditor" ∷ []) (some " root ") ledger
      ≡ (ok root, ledger))
    ↔ IsActor (some identities) ("operator" ∷ "auditor" ∷ []) (some " root ") ledger ledger root
require_admin_role-IsActor_example =
    require_admin_role-IsActor (some identities) ("operator" ∷ "auditor" ∷ []) (some " root ")
      ledger ledger root

abbrev pub budget : BudgetPolicyCreateRequest
budget = record {
  id = "b1";
  period_type = month;
  metric_type = tokens;
  limit_value = pos 1000;
  soft_limit_percent = pos 80;
  hard_limit_percent = pos 100;
}

abbrev pub budgets : BudgetServices Ledger
budgets = record { get_user = λ id_ w. (ok (some alice), w); create_policy = λ p w. (ok tt, w) }
