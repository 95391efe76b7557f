-- ===== src/TokenService/Issue.antt =====
-- token_service/issue_service.py: the key of a user from the cache, else from the ledger, else a
-- new one. What the service is built from is the interface `IssueServices`.
pub mod Gate
use claude_code_proxy.Prelude.{
  ℕ, ◌+◌, ◌/◌, String, Bool, true, false, not, ◌||◌, Option, none, some, min, zero, suc,
  if◌then◌else◌,
}
use claude_code_proxy.Prelude.Int.{ℤ, pos, negsuc}
use claude_code_proxy.Errors.{ServiceError, user_not_registered_error, access_denied}
use claude_code_proxy.Exec.{Exec, ◌>>=◌, ◌>>◌, pure, raise, service}
use claude_code_proxy.Domain.{
  UserRecord, VirtualKeyRecord, VirtualKeyCacheEntry, TokenIssueResult, cache, reused, issued,
  active,
}
use claude_code_proxy.Keys.{get_virtual_key_prefix}
use claude_code_proxy.VirtualKeys.{VirtualKeyCache, seconds}

abbrev pub default_cache_ttl : ℕ
default_cache_ttl = 900000000

abbrev pub max_cache_ttl : ℕ
max_cache_ttl = 3600000000

-- _normalize_cache_ttl, of a timedelta in microseconds
unfoldable pub normalize_cache_ttl : ℤ → ℕ
normalize_cache_ttl (pos zero) = default_cache_ttl
normalize_cache_ttl (pos (suc n)) = min (suc n) max_cache_ttl
normalize_cache_ttl (negsuc n) = default_cache_ttl

pub record IssueServices (W : Type 0) : Type 0 where
  -- UserRepository.get_user and VirtualKeyLedgerRepository
  pub get_user : String → Exec W (Option UserRecord)
  pub get_active_key_for_user : String → Exec W (Option VirtualKeyRecord)
  pub save_key : VirtualKeyRecord → Exec W (Unit {0})
  pub key_cache : VirtualKeyCache W
  -- EncryptionService
  pub encrypt : String → Exec W String
  pub decrypt : String → Exec W String
  -- the clock, the generator of keys, uuid4 and SHA-256
  pub clock : Exec W ℕ
  pub key_generator : Exec W String
  pub uuid : Exec W String
  pub hash_virtual_key : String → String
  pub cache_ttl : ℕ

module _ {W : Type 0} (s : IssueServices W) where
  abbrev pub entry_of_record : VirtualKeyRecord → ℕ → VirtualKeyCacheEntry
  entry_of_record r now = record {
    user_id = r.user_id;
    virtual_key_id = r.id;
    encrypted_key_ref = r.encrypted_key_blob;
    key_prefix = r.key_prefix;
    status = r.status;
    ttl = pos (seconds (now + s.cache_ttl));
  }

  unfoldable pub cache_key_record : VirtualKeyRecord → ℕ → Exec W (Unit {0})
  cache_key_record r now = s.key_cache.put_active_key (entry_of_record r now)

  unfoldable pub check_user : String → Option UserRecord → Exec W UserRecord
  check_user rid none = raise (service (user_not_registered_error rid none))
  check_user rid (some user) =
      if not user.proxy_access_enabled || not user.is_active
      then raise (
          service (record {
            code = access_denied;
            message = "Proxy access is disabled for this user.";
            status_code = 403;
            request_id = rid;
            details = none;
            headers = none;
          }))
      else pure user

  unfoldable pub require_allowed_user : String → String → Exec W UserRecord
  require_allowed_user user_id rid = do user ← s.get_user user_id; check_user rid user

  abbrev pub new_record : UserRecord → ℕ → String → String → String → VirtualKeyRecord
  new_record user now virtual_key encrypted_key id_ = record {
    id = id_;
    user_id = user.id;
    key_hash = s.hash_virtual_key virtual_key;
    encrypted_key_blob = encrypted_key;
    key_prefix = get_virtual_key_prefix virtual_key;
    status = active;
    created_at = now;
    expires_at = none;
    revoked_at = none;
    last_used_at = none;
  }

  unfoldable pub issue_new_key : UserRecord → ℕ → Exec W TokenIssueResult
  issue_new_key user now = do
    virtual_key ← s.key_generator
    encrypted_key ← s.encrypt virtual_key
    id_ ← s.uuid
    let r = new_record user now virtual_key encrypted_key id_
    s.save_key r
    cache_key_record r now
    pure (record {
      virtual_key = virtual_key;
      user_id = user.id;
      key_id = r.id;
      key_prefix = r.key_prefix;
      status = r.status;
      source = issued;
      expires_at = none;
    })

  unfoldable pub reuse_key : UserRecord → ℕ → VirtualKeyRecord → Exec W TokenIssueResult
  reuse_key user now existing = do
    cache_key_record existing now
    virtual_key ← s.decrypt existing.encrypted_key_blob
    pure (record {
      virtual_key = virtual_key;
      user_id = user.id;
      key_id = existing.id;
      key_prefix = existing.key_prefix;
      status = existing.status;
      source = reused;
      expires_at = existing.expires_at;
    })

  unfoldable pub from_cache : String → VirtualKeyCacheEntry → Exec W TokenIssueResult
  from_cache user_id e = do
    virtual_key ← s.decrypt e.encrypted_key_ref
    pure (record {
      virtual_key = virtual_key;
      user_id = user_id;
      key_id = e.virtual_key_id;
      key_prefix = e.key_prefix;
      status = e.status;
      source = cache;
      expires_at = none;
    })

  unfoldable pub from_ledger : UserRecord → ℕ → Option VirtualKeyRecord → Exec W TokenIssueResult
  from_ledger user now (some existing) = reuse_key user now existing
  from_ledger user now none = issue_new_key user now

  unfoldable pub on_cache :
      String → String → ℕ → Option VirtualKeyCacheEntry → Exec W TokenIssueResult
  on_cache user_id rid now (some e) = from_cache user_id e
  on_cache user_id rid now none = do
    user ← require_allowed_user user_id rid
    existing ← s.get_active_key_for_user user.id
    from_ledger user now existing

  unfoldable pub get_or_create_key : String → String → Exec W TokenIssueResult
  get_or_create_key user_id rid = do
    now ← s.clock
    cached ← s.key_cache.get_active_key user_id now
    on_cache user_id rid now cached
