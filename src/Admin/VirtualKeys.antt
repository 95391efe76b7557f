-- ===== src/Admin/VirtualKeys.antt =====
-- api/admin_virtual_keys.py: a key is revoked, disabled or replaced by an operator.
pub mod Lifecycle
use claude_code_proxy.Prelude.{ℕ, String, Option, none, some, [], ◌∷◌}
use claude_code_proxy.Json.{Value, text, object}
use claude_code_proxy.Exec.{Exec, Result, ok, raised, http, ◌>>=◌, ◌>>◌, pure, lift}
use claude_code_proxy.Domain.{VirtualKeyRecord, active, disabled, revoked, status_value}
use claude_code_proxy.Keys.{get_virtual_key_prefix}
use claude_code_proxy.Admin.{AdminIdentityStore, require_admin_write, configured}

-- What the service is built from: the repository of keys, the dispatcher of invalidations, the encryption,
-- the clock, the generators, and SHA-256.
pub record LifecycleServices (W : Type 0) : Type 0 where
  pub get_key : String → Exec W (Option VirtualKeyRecord)
  pub save_key : VirtualKeyRecord → Exec W (Unit {0})
  pub invalidate_token_service_cache : String → Exec W (Unit {0})
  pub invalidate_proxy_auth_cache : String → Exec W (Unit {0})
  pub encrypt : String → Exec W String
  pub clock : Exec W ℕ
  pub key_generator : Exec W String
  pub key_id_generator : Exec W String
  pub hash_virtual_key : String → String

unfoldable pub key_or_not_found : Option VirtualKeyRecord → Result VirtualKeyRecord
key_or_not_found none = raised (http 404 "Virtual key not found.")
key_or_not_found (some r) = ok r

module _ {W : Type 0} (s : LifecycleServices W) where
  unfoldable pub require_key : String → Exec W VirtualKeyRecord
  require_key key_id = do found ← s.get_key key_id; lift (key_or_not_found found)

  unfoldable pub invalidate : VirtualKeyRecord → Exec W (Unit {0})
  invalidate r = do s.invalidate_token_service_cache r.user_id; s.invalidate_proxy_auth_cache r.id

  -- A record of a key that was taken out of use: saved, and then forgotten by the caches.
  unfoldable pub retire : VirtualKeyRecord → Exec W VirtualKeyRecord
  retire r = do s.save_key r; invalidate r; pure r

  unfoldable pub revoke : String → Exec W VirtualKeyRecord
  revoke key_id = do
    r ← require_key key_id
    now ← s.clock
    retire (record r { status = revoked; revoked_at = some now })

  unfoldable pub disable : String → Exec W VirtualKeyRecord
  disable key_id = do r ← require_key key_id; retire (record r { status = disabled })

  abbrev pub replacement : VirtualKeyRecord → String → ℕ → String → String → VirtualKeyRecord
  replacement r new_virtual_key now id_ blob = record {
    id = id_;
    user_id = r.user_id;
    key_hash = s.hash_virtual_key new_virtual_key;
    encrypted_key_blob = blob;
    key_prefix = get_virtual_key_prefix new_virtual_key;
    status = active;
    created_at = now;
    expires_at = none;
    revoked_at = none;
    last_used_at = none;
  }

  -- The new key, in the place of one that is out of use.
  unfoldable pub replace_key :
      VirtualKeyRecord → VirtualKeyRecord → Exec W (VirtualKeyRecord × VirtualKeyRecord)
  replace_key r previous = do
    new_virtual_key ← s.key_generator
    now ← s.clock
    id_ ← s.key_id_generator
    blob ← s.encrypt new_virtual_key
    s.save_key (replacement r new_virtual_key now id_ blob)
    pure (previous, replacement r new_virtual_key now id_ blob)

  unfoldable pub rotate : String → Exec W (VirtualKeyRecord × VirtualKeyRecord)
  rotate key_id = do
    r ← require_key key_id
    previous ← retire (record r { status = disabled })
    replace_key r previous

abbrev pub status_payload : VirtualKeyRecord → Value
status_payload r = object (
    ("key_id", text r.id)
    ∷ ("user_id", text r.user_id)
    ∷ ("status", text (status_value r.status))
    ∷ [])

abbrev pub rotation_payload : VirtualKeyRecord × VirtualKeyRecord → Value
rotation_payload (previous, new) = object (
    ("old_key_id", text previous.id)
    ∷ ("new_key_id", text new.id)
    ∷ ("user_id", text new.user_id)
    ∷ ("status", text (status_value new.status))
    ∷ [])

module _ {W : Type 0} (repository : Option (AdminIdentityStore W))
    (service : Option (LifecycleServices W)) (header : Option String) where
  unfoldable pub virtual_key_service : Result (LifecycleServices W)
  virtual_key_service = configured "Virtual key admin service is not configured." service

  unfoldable pub revoke_virtual_key : String → Exec W Value
  revoke_virtual_key key_id = do
    actor ← require_admin_write repository header
    s ← lift virtual_key_service
    r ← revoke s key_id
    pure (status_payload r)

  unfoldable pub disable_virtual_key : String → Exec W Value
  disable_virtual_key key_id = do
    actor ← require_admin_write repository header
    s ← lift virtual_key_service
    r ← disable s key_id
    pure (status_payload r)

  unfoldable pub rotate_virtual_key : String → Exec W Value
  rotate_virtual_key key_id = do
    actor ← require_admin_write repository header
    s ← lift virtual_key_service
    r ← rotate s key_id
    pure (rotation_payload r)
