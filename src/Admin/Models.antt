-- ===== src/Admin/Models.antt =====
-- api/admin_model_mappings.py: an operator changes a route of the resolver or a price of the catalog, and
-- who reads them is told to reload.
use claude_code_proxy.Prelude.{ℕ, String, Bool, Option}
use claude_code_proxy.Prelude.Int.{ℤ}
use claude_code_proxy.Exec.{Exec, ◌>>=◌, ◌>>◌, pure, lift}
use claude_code_proxy.Domain.{ModelRouteRecord, ModelPricingRecord}
use claude_code_proxy.Admin.{AdminIdentityStore, require_admin_write, configured}

pub record ModelRouteUpdateRequest : Type 0 where
  pub logical_model : String
  pub provider : String
  pub bedrock_api_route : String
  pub bedrock_model_id : Option String
  pub inference_profile_id : Option String
  pub supports_native_structured_output : Bool
  pub supports_reasoning : Bool
  pub supports_prompt_cache_ttl : Bool
  pub supports_disable_parallel_tool_use : Bool
  pub priority : ℤ
  pub is_active : Bool

-- Dates are numbers of days.
pub record PricingCatalogUpdateRequest (F : Type 0) : Type 0 where
  pub provider : String
  pub model_id : String
  pub input_cost_per_million : F
  pub output_cost_per_million : F
  pub cache_write_input_cost_per_million : F
  pub cache_read_input_cost_per_million : F
  pub currency : String
  pub effective_from : Option ℕ
  pub effective_to : Option ℕ

-- ModelMappingAdminService: the two stores, and the two notifiers of their readers
pub record ModelMappingServices (W F : Type 0) : Type 0 where
  pub upsert_model_route : ModelRouteRecord → Exec W (Unit {0})
  pub reload_resolver : Exec W (Unit {0})
  pub upsert_pricing : ModelPricingRecord F → Exec W (Unit {0})
  pub reload_pricing : Exec W (Unit {0})

abbrev pub route_record : String → ModelRouteUpdateRequest → ModelRouteRecord
route_record route_id request = record {
  id = route_id;
  logical_model = request.logical_model;
  provider = request.provider;
  bedrock_api_route = request.bedrock_api_route;
  bedrock_model_id = request.bedrock_model_id;
  inference_profile_id = request.inference_profile_id;
  supports_native_structured_output = request.supports_native_structured_output;
  supports_reasoning = request.supports_reasoning;
  supports_prompt_cache_ttl = request.supports_prompt_cache_ttl;
  supports_disable_parallel_tool_use = request.supports_disable_parallel_tool_use;
  priority = request.priority;
  is_active = request.is_active;
}

abbrev pub pricing_record :
    {F : Type 0} → String → PricingCatalogUpdateRequest F → ModelPricingRecord F
pricing_record pricing_id request = record {
  id = pricing_id;
  provider = request.provider;
  model_id = request.model_id;
  input_cost_per_million = request.input_cost_per_million;
  output_cost_per_million = request.output_cost_per_million;
  cache_write_input_cost_per_million = request.cache_write_input_cost_per_million;
  cache_read_input_cost_per_million = request.cache_read_input_cost_per_million;
  currency = request.currency;
  effective_from = request.effective_from;
  effective_to = request.effective_to;
}

-- The endpoints, with the service's method; the record is encoded as JSON by `jsonable_encoder` of the
-- framework.
module _ {W F : Type 0} (repository : Option (AdminIdentityStore W))
    (service : Option (ModelMappingServices W F)) (header : Option String) where
  unfoldable pub update_model_route : String → ModelRouteUpdateRequest → Exec W ModelRouteRecord
  update_model_route route_id request = do
    actor ← require_admin_write repository header
    s ← lift (configured "Model mapping service is not configured." service)
    s.upsert_model_route (route_record route_id request)
    s.reload_resolver
    pure (route_record route_id request)

  unfoldable pub update_pricing_catalog :
      String → PricingCatalogUpdateRequest F → Exec W (ModelPricingRecord F)
  update_pricing_catalog pricing_id request = do
    actor ← require_admin_write repository header
    s ← lift (configured "Model mapping service is not configured." service)
    s.upsert_pricing (pricing_record pricing_id request)
    s.reload_pricing
    pure (pricing_record pricing_id request)
