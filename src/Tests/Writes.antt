-- ===== src/Tests/Writes.antt =====
-- The endpoints of the administration API that write, asked by someone who is no operator.
use claude_code_proxy.Prelude.{ℕ, true, false, none, some, [], ◌≡◌, refl, some_inj}
use claude_code_proxy.Prelude.Int.{pos}
use claude_code_proxy.Exec.{Result, ok}
use claude_code_proxy.Admin.VirtualKeys.{
  revoke_virtual_key, disable_virtual_key, rotate_virtual_key,
}
use claude_code_proxy.Admin.Budgets.{create_user_budget_policy}
use claude_code_proxy.Admin.Models.{
  ModelMappingServices, ModelRouteUpdateRequest, PricingCatalogUpdateRequest, update_model_route,
  update_pricing_catalog,
}
use claude_code_proxy.Admin.Users.{ProvisioningServices, UserProvisioningRequest, create_user}
use claude_code_proxy.Admin.Writes.{Unchanged, Quiet, admin_writes_need_operator}
use claude_code_proxy.Tests.Admin.{Ledger, ledger, services, identities, budget, budgets}

abbrev IsSame : Ledger → Type 0
IsSame w = w ≡ ledger

identities-Quiet : Quiet IsSame (some identities) (some "auditor")
identities-Quiet store name w e p = rw (← some_inj e) p

abbrev users : ProvisioningServices Ledger
users = record { provision_user = λ u m w. (ok tt, w); utc_now = λ w. (ok 0, w) }

abbrev models : ModelMappingServices Ledger ℕ
models = record {
  upsert_model_route = λ r w. (ok tt, w);
  reload_resolver = λ w. (ok tt, w);
  upsert_pricing = λ p w. (ok tt, w);
  reload_pricing = λ w. (ok tt, w);
}

abbrev bob : UserProvisioningRequest
bob = record {
  username = "bob";
  user_id = "u2";
  email = "bob@example.com";
  display_name = "Bob";
  department = none;
  cost_center = none;
  groups = [];
  proxy_access_enabled = true;
  is_active = true;
}

abbrev route_update : ModelRouteUpdateRequest
route_update = record {
  logical_model = "sonnet";
  provider = "bedrock";
  bedrock_api_route = "converse";
  bedrock_model_id = some "sonnet-v1";
  inference_profile_id = none;
  supports_native_structured_output = false;
  supports_reasoning = true;
  supports_prompt_cache_ttl = false;
  supports_disable_parallel_tool_use = false;
  priority = pos 1;
  is_active = true;
}

abbrev price_update : PricingCatalogUpdateRequest ℕ
price_update = record {
  provider = "bedrock";
  model_id = "sonnet-v1";
  input_cost_per_million = 3;
  output_cost_per_million = 15;
  cache_write_input_cost_per_million = 0;
  cache_read_input_cost_per_million = 0;
  currency = "USD";
  effective_from = none;
  effective_to = none;
}

abbrev Kept : {A : Type 0} → Result A × Ledger → Type 0
Kept r = Unchanged IsSame (some identities) (some "auditor") r

admin_writes_need_operator_example :
    Kept (revoke_virtual_key (some identities) (some services) (some "auditor") "k1" ledger)
    × Kept (disable_virtual_key (some identities) (some services) (some "auditor") "k1" ledger)
    × Kept (rotate_virtual_key (some identities) (some services) (some "auditor") "k1" ledger)
    × Kept (
        create_user_budget_policy
          (some identities)
          (some budgets)
          (some "auditor")
          "k1"
          budget
          ledger)
    × Kept (create_user (some identities) (some users) (some "auditor") bob ledger)
    × Kept (
        update_model_route
          (some identities)
          (some models)
          (some "auditor")
          "k1"
          route_update
          ledger)
    × Kept (
        update_pricing_catalog
          (some identities)
          (some models)
          (some "auditor")
          "k1"
          price_update
          ledger)
admin_writes_need_operator_example =
    admin_writes_need_operator IsSame (some identities) (some "auditor") identities-Quiet ledger
      refl (some services) (some budgets) (some users) (some models) "k1" budget bob route_update
      price_update
