-- ===== src/Auth.antt =====
-- proxy/auth.py and proxy/context.py: from the Authorization header to the trusted context of a
-- user. The two repositories are the interface `AuthRepositories`.
pub mod Extraction
pub mod Context
use claude_code_proxy.Prelude.{
  String, Bool, ◌&&◌, ◌||◌, not, Option, none, some, [], ◌∷◌, str_eq, if◌then◌else◌,
}
use claude_code_proxy.Json.{text}
use claude_code_proxy.Errors.{ServiceError, authentication_failed_error}
use claude_code_proxy.Exec.{Exec, Exn, Result, ok, raised, service, ◌>>=◌, pure, raise, lift}
use claude_code_proxy.Domain.{
  VirtualKeyRecord, UserRecord, UserContext, AuthenticatedRequestContext, is_active_status,
}
use claude_code_proxy.Text.{strip, partition_blank, has_prefix}
use claude_code_proxy.Keys.{virtual_key_prefix}

pub record AuthRepositories (W : Type 0) : Type 0 where
  pub get_key_by_hash : String → Exec W (Option VirtualKeyRecord)
  pub get_user : String → Exec W (Option UserRecord)

-- restore_trusted_request_context
unfoldable pub restore_trusted_request_context :
    String → UserRecord → String → String → String → AuthenticatedRequestContext
restore_trusted_request_context rid user key_id key_hash key_prefix = record {
  request = record {
    request_id = rid;
    user = some (record {
      user_id = user.id;
      email = some user.email;
      groups = user.groups;
      department = user.department;
    });
  };
  user_record = user;
  virtual_key_id = key_id;
  key_hash = key_hash;
  key_prefix = key_prefix;
}

abbrev pub authentication_error : String → String → Exn
authentication_error rid reason =
    service (
      authentication_failed_error rid (some (("reason", text reason) ∷ []))
        "Authentication failed.")

abbrev pub is_blank : String → Bool
is_blank s = str_eq (strip s) ""

abbrev pub malformed : String → Result String
malformed rid = raised (authentication_error rid "malformed_bearer_token")

-- What follows `partition(" ")`; a header without a blank is malformed.
abbrev of_parts : String → Option (String × String) → Result String
of_parts rid none = malformed rid
of_parts rid (some (scheme, token)) =
    if not (str_eq scheme "Bearer") || is_blank token
    then malformed rid
    else if not (has_prefix virtual_key_prefix (strip token))
    then malformed rid
    else ok (strip token)

unfoldable pub extract_virtual_key : Option String → String → Result String
extract_virtual_key none rid = raised (authentication_error rid "missing_bearer_token")
extract_virtual_key (some header) rid =
    if is_blank header
    then raised (authentication_error rid "missing_bearer_token")
    else of_parts rid (partition_blank header)

module _ {W : Type 0} (hash_virtual_key : String → String) (repositories : AuthRepositories W) where
  unfoldable pub with_user :
      String → VirtualKeyRecord → Option UserRecord → Exec W AuthenticatedRequestContext
  with_user rid record_ none = raise (authentication_error rid "orphaned_virtual_key")
  with_user rid record_ (some user) =
      pure (restore_trusted_request_context rid user record_.id record_.key_hash record_.key_prefix)

  unfoldable pub with_record : String → Option VirtualKeyRecord → Exec W AuthenticatedRequestContext
  unfolding with_user
  with_record rid none = raise (authentication_error rid "unknown_virtual_key")
  with_record rid (some record_) =
      if not (is_active_status record_.status)
      then raise (authentication_error rid "inactive_virtual_key")
      else do user ← repositories.get_user record_.user_id; with_user rid record_ user

  unfoldable pub authenticate : Option String → String → Exec W AuthenticatedRequestContext
  unfolding with_record
  authenticate header rid = do
    virtual_key ← lift (extract_virtual_key header rid)
    record_ ← repositories.get_key_by_hash (hash_virtual_key virtual_key)
    with_record rid record_
