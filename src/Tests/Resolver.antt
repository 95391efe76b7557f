-- ===== src/Tests/Resolver.antt =====
-- proxy/model_resolver.py over fixed rules and routes.
use claude_code_proxy.Prelude.{String, true, false, none, some, List, [], ◌∷◌, ◌≡◌, refl}
use claude_code_proxy.Prelude.Int.{ℤ, pos}
use claude_code_proxy.Exec.{ok}
use claude_code_proxy.Domain.{ModelAliasRuleRecord, ModelRouteRecord}
use claude_code_proxy.Glob.{fnmatchcase}
use claude_code_proxy.Resolver.{
  ModelRepositories, resolve, resolved, unknown_model, find_alias_rule, find_route,
}
use claude_code_proxy.Resolver.Resolution.{Resolution, resolve-Resolution}

abbrev alias : String → String → String → ℤ → ModelAliasRuleRecord
alias id_ pattern_ logical priority = record {
  id = id_;
  pattern_ = pattern_;
  logical_model = logical;
  priority = priority;
  is_active = true;
}

abbrev route : String → String → ℤ → ModelRouteRecord
route id_ logical priority = record {
  id = id_;
  logical_model = logical;
  provider = "bedrock";
  bedrock_api_route = "converse";
  bedrock_model_id = some id_;
  inference_profile_id = none;
  supports_native_structured_output = true;
  supports_reasoning = true;
  supports_prompt_cache_ttl = false;
  supports_disable_parallel_tool_use = true;
  priority = priority;
  is_active = true;
}

abbrev aliases : List ModelAliasRuleRecord
aliases = alias "a1" "claude-*" "sonnet" (pos 1) ∷ alias "a2" "claude-opus-*" "opus" (pos 5) ∷ []

abbrev routes : List ModelRouteRecord
routes = route "r1" "opus" (pos 1) ∷ route "r2" "opus" (pos 2) ∷ route "r3" "sonnet" (pos 1) ∷ []

abbrev fixed_repositories : ModelRepositories (Unit {0})
fixed_repositories = record {
  list_alias_rules = λ w. (ok aliases, w);
  list_model_routes = λ w. (ok routes, w);
}

resolve_opus :
    (resolve fixed_repositories "claude-opus-4" tt).0
    ≡ ok (
        resolved "claude-opus-4"
          (alias "a2" "claude-opus-*" "opus" (pos 5))
          (route "r2" "opus" (pos 2)))
unfolding resolve find_alias_rule find_route fnmatchcase
resolve_opus = refl

resolve_unknown : (resolve fixed_repositories "gpt-4" tt).0 ≡ unknown_model "gpt-4"
unfolding resolve find_alias_rule find_route fnmatchcase
resolve_unknown = refl

resolve-Resolution_example :
    Resolution "claude-opus-4" aliases routes (resolve fixed_repositories "claude-opus-4" tt).0
resolve-Resolution_example =
    resolve-Resolution fixed_repositories "claude-opus-4" tt tt tt aliases routes refl refl
