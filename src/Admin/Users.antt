-- ===== src/Admin/Users.antt =====
-- api/admin_users.py: an operator provisions a user, with the name that his identity maps to him.
-- repositories/user_repository.py: who reads them back.
use claude_code_proxy.Prelude.{ℕ, String, Bool, Option, none, some, List, [], ◌∷◌}
use claude_code_proxy.Json.{Value, text, bool, object}
use claude_code_proxy.Exec.{Exec, ◌>>=◌, ◌>>◌, pure, lift}
use claude_code_proxy.Domain.{UserRecord, IdentityMapping}
use claude_code_proxy.Admin.{AdminIdentityStore, require_admin_write, configured}

pub record UserProvisioningRequest : Type 0 where
  pub username : String
  pub user_id : String
  pub email : String
  pub display_name : String
  pub department : Option String
  pub cost_center : Option String
  pub groups : List String
  pub proxy_access_enabled : Bool
  pub is_active : Bool

-- UserProvisioningStore, and the clock of the records' default times
pub record ProvisioningServices (W : Type 0) : Type 0 where
  pub provision_user : UserRecord → IdentityMapping → Exec W (Unit {0})
  pub utc_now : Exec W ℕ

abbrev pub user_record : UserProvisioningRequest → ℕ → ℕ → UserRecord
user_record request created_at updated_at = record {
  id = request.user_id;
  email = request.email;
  display_name = request.display_name;
  department = request.department;
  cost_center = request.cost_center;
  groups = request.groups;
  proxy_access_enabled = request.proxy_access_enabled;
  is_active = request.is_active;
  created_at = created_at;
  updated_at = updated_at;
}

abbrev pub identity_mapping : UserProvisioningRequest → ℕ → IdentityMapping
identity_mapping request created_at = record {
  username = request.username;
  user_id = request.user_id;
  identity_provider = "identity-center";
  created_at = created_at;
}

unfoldable pub provision :
    {W : Type 0}
    → ProvisioningServices W
    → UserProvisioningRequest
    → Exec W (UserRecord × IdentityMapping)
provision s request = do
  created_at ← s.utc_now
  updated_at ← s.utc_now
  mapped_at ← s.utc_now
  s.provision_user (user_record request created_at updated_at) (identity_mapping request mapped_at)
  pure (user_record request created_at updated_at, identity_mapping request mapped_at)

abbrev pub provisioned_payload : UserRecord × IdentityMapping → Value
provisioned_payload (user, mapping) = object (
    ("user_id", text user.id)
    ∷ ("username", text mapping.username)
    ∷ ("email", text user.email)
    ∷ ("display_name", text user.display_name)
    ∷ ("proxy_access_enabled", bool user.proxy_access_enabled)
    ∷ ("is_active", bool user.is_active)
    ∷ [])

module _ {W : Type 0} (repository : Option (AdminIdentityStore W))
    (service : Option (ProvisioningServices W)) where
  unfoldable pub create_user : Option String → UserProvisioningRequest → Exec W Value
  create_user header payload = do
    actor ← require_admin_write repository header
    s ← lift (configured "User provisioning service is not configured." service)
    provisioned ← provision s payload
    pure (provisioned_payload provisioned)

-- PostgresUserStore
pub record UserStore (W : Type 0) : Type 0 where
  pub get_identity_mapping : String → Exec W (Option IdentityMapping)
  pub get_user : String → Exec W (Option UserRecord)

abbrev mapped_user : Option IdentityMapping → Option String
mapped_user none = none
mapped_user (some mapping) = some mapping.user_id

-- PostgresUserRepository
module _ {W : Type 0} (store : UserStore W) where
  unfoldable pub get_user_id_for_username : String → Exec W (Option String)
  get_user_id_for_username username = do
    mapping ← store.get_identity_mapping username
    pure (mapped_user mapping)

  unfoldable pub get_user : String → Exec W (Option UserRecord)
  get_user user_id = store.get_user user_id
