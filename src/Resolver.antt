-- ===== src/Resolver.antt =====
-- proxy/model_resolver.py: from the model that a client names to a Bedrock route. The repositories
-- of aliases and routes are the interface `ModelRepositories`.
pub mod Resolution
use Prim.Native.String.{◌++◌ as str_append}
use claude_code_proxy.Prelude.{
  String, Bool, ◌&&◌, Option, none, some, List, filter, best, str_eq, if◌then◌else◌, true, false,
  not,
}
use claude_code_proxy.Prelude.Int.{ltℤ}
use claude_code_proxy.Exec.{Exec, Result, ok, raised, model_resolution, ◌>>=◌, lift}
use claude_code_proxy.Domain.{ModelAliasRuleRecord, ModelRouteRecord}
use claude_code_proxy.Glob.{fnmatchcase}

pub record ResolvedModelCapabilities : Type 0 where
  pub supports_native_structured_output : Bool
  pub supports_reasoning : Bool
  pub supports_prompt_cache_ttl : Bool
  pub supports_disable_parallel_tool_use : Bool

abbrev pub from_route : ModelRouteRecord → ResolvedModelCapabilities
from_route route = record {
  supports_native_structured_output = route.supports_native_structured_output;
  supports_reasoning = route.supports_reasoning;
  supports_prompt_cache_ttl = route.supports_prompt_cache_ttl;
  supports_disable_parallel_tool_use = route.supports_disable_parallel_tool_use;
}

pub record ResolvedModel : Type 0 where
  pub requested_model : String
  pub logical_model : String
  pub provider : String
  pub bedrock_api_route : String
  pub bedrock_model_id : Option String
  pub inference_profile_id : Option String
  pub aws_region_name : Option String
  pub capabilities : ResolvedModelCapabilities

pub record ModelRepositories (W : Type 0) : Type 0 where
  pub list_alias_rules : Exec W (List ModelAliasRuleRecord)
  pub list_model_routes : Exec W (List ModelRouteRecord)

abbrev pub alias_matches : String → ModelAliasRuleRecord → Bool
alias_matches model rule = rule.is_active && fnmatchcase model rule.pattern_

abbrev pub alias_beats : ModelAliasRuleRecord → ModelAliasRuleRecord → Bool
alias_beats a b = ltℤ b.priority a.priority

abbrev pub route_matches : String → ModelRouteRecord → Bool
route_matches logical route = route.is_active && str_eq route.logical_model logical

abbrev pub route_beats : ModelRouteRecord → ModelRouteRecord → Bool
route_beats a b = ltℤ b.priority a.priority

-- _select_highest_priority of the matching rules, and of the matching routes
unfoldable pub find_alias_rule : List ModelAliasRuleRecord → String → Option ModelAliasRuleRecord
find_alias_rule rules model = best alias_beats (filter (alias_matches model) rules)

unfoldable pub find_route : List ModelRouteRecord → String → Option ModelRouteRecord
find_route routes logical = best route_beats (filter (route_matches logical) routes)

abbrev pub unknown_model : String → Result ResolvedModel
unknown_model model = raised (
    model_resolution model "unknown_model"
      (str_append "Model '" (str_append model "' is not allowed.")))

abbrev pub no_route : String → String → Result ResolvedModel
no_route model logical = raised (
    model_resolution model "unsupported_model_route" (
      str_append "Logical model '"
        (str_append logical "' has no supported Bedrock Converse route.")))

abbrev pub unsupported_route : String → String → String → Result ResolvedModel
unsupported_route model logical api = raised (
    model_resolution model "unsupported_model_route" (
      str_append "Logical model '" (
        str_append logical
          (str_append "' resolves to unsupported Bedrock route '" (str_append api "'.")))))

abbrev pub resolved : String → ModelAliasRuleRecord → ModelRouteRecord → ResolvedModel
resolved model rule route = record {
  requested_model = model;
  logical_model = rule.logical_model;
  provider = route.provider;
  bedrock_api_route = route.bedrock_api_route;
  bedrock_model_id = route.bedrock_model_id;
  inference_profile_id = route.inference_profile_id;
  aws_region_name = none;
  capabilities = from_route route;
}

-- The end of `resolve`, from the route that was found for the alias rule.
abbrev pub finish : String → ModelAliasRuleRecord → Option ModelRouteRecord → Result ResolvedModel
finish model rule none = no_route model rule.logical_model
finish model rule (some route) =
    if not (str_eq route.bedrock_api_route "converse")
    then unsupported_route model rule.logical_model route.bedrock_api_route
    else ok (resolved model rule route)

module _ {W : Type 0} (repositories : ModelRepositories W) where
  -- The routes are read only once an alias rule is found.
  unfoldable pub with_rule : String → Option ModelAliasRuleRecord → Exec W ResolvedModel
  with_rule model none = lift (unknown_model model)
  with_rule model (some rule) = do
    routes ← repositories.list_model_routes
    lift (finish model rule (find_route routes rule.logical_model))

  unfoldable pub resolve : String → Exec W ResolvedModel
  unfolding with_rule
  resolve model = do
    rules ← repositories.list_alias_rules
    with_rule model (find_alias_rule rules model)
