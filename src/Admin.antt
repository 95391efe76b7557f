-- ===== src/Admin.antt =====
-- api/admin_auth.py and repositories/admin_identity_repository.py: who may use the administration API.
pub mod VirtualKeys
pub mod Budgets
pub mod Models
pub mod Users
pub mod Operations
pub mod Access
pub mod Writes
use claude_code_proxy.Prelude.{
  String, Bool, true, false, not, Option, none, some, List, [], ◌∷◌, any, str_eq, if◌then◌else◌,
}
use claude_code_proxy.Exec.{Exec, Exn, Result, ok, raised, http, ◌>>=◌, ◌>>◌, pure, raise, lift}
use claude_code_proxy.Domain.{AdminIdentityRecord}
use claude_code_proxy.Text.{strip}

pub record AdminActor : Type 0 where
  pub principal_id : String
  pub role : String

-- AdminIdentityStore.get_admin_identity
abbrev pub AdminIdentityStore : Type 0 → Type 0
AdminIdentityStore W = String → Exec W (Option AdminIdentityRecord)

abbrev pub admin_denied : Exn
admin_denied = http 403 "Admin access denied."

-- `role in allowed_roles`
abbrev pub is_allowed : List String → String → Bool
is_allowed roles role = any (str_eq role) roles

-- PostgresAdminIdentityRepository
unfoldable pub role_of : Option AdminIdentityRecord → Option String
role_of none = none
role_of (some identity) = if not identity.is_active then none else some identity.role

unfoldable pub get_admin_role :
    {W : Type 0} → AdminIdentityStore W → String → Exec W (Option String)
get_admin_role store principal_id = do identity ← store principal_id; pure (role_of identity)

unfoldable pub actor_with : List String → String → Option String → Result AdminActor
actor_with roles principal_id none = raised admin_denied
actor_with roles principal_id (some role) =
    if not (is_allowed roles role)
    then raised admin_denied
    else ok (record { principal_id = principal_id; role = role })

-- The header with the principal, if there is a repository to look him up in.
unfoldable pub principal_of :
    {W : Type 0}
    → Option (AdminIdentityStore W)
    → Option String
    → Result (AdminIdentityStore W × String)
principal_of none header = raised admin_denied
principal_of (some store) none = raised admin_denied
principal_of (some store) (some principal_id) =
    if str_eq (strip principal_id) "" then raised admin_denied else ok (store, strip principal_id)

module _ {W : Type 0} (repository : Option (AdminIdentityStore W)) where
  unfoldable pub require_admin_role : List String → Option String → Exec W AdminActor
  require_admin_role roles header = do
    known ← lift (principal_of repository header)
    role ← get_admin_role known.0 known.1
    lift (actor_with roles known.1 role)

  unfoldable pub require_admin_read : Option String → Exec W AdminActor
  require_admin_read header = require_admin_role ("operator" ∷ "auditor" ∷ []) header

  unfoldable pub require_admin_write : Option String → Exec W AdminActor
  require_admin_write header = require_admin_role ("operator" ∷ []) header

-- a service of AppDependencies, which may be missing
unfoldable pub configured : {S : Type 0} → String → Option S → Result S
configured detail none = raised (http 500 detail)
configured detail (some s) = ok s
