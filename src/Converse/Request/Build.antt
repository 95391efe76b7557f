-- ===== src/Converse/Request/Build.antt =====
-- proxy/bedrock_converse/request_builder.py: the request to Bedrock, put together.
pub mod Laws
use claude_code_proxy.Prelude.{
  String, Bool, true, false, not, ◌&&◌, Option, none, some, List, [], ◌∷◌, ◌++◌, Dict, str_eq,
  if◌then◌else◌,
}
use claude_code_proxy.Prelude.Int.{ℤ}
use claude_code_proxy.Json.{Value, null, array, object, Fields, get_field_or, truthy}
use claude_code_proxy.Exec.{Result, ok, raised, ◌>>?◌}
use claude_code_proxy.Resolver.{ResolvedModel, ResolvedModelCapabilities}
use claude_code_proxy.Converse.Request.{normalize_messages}
use claude_code_proxy.Converse.Request.Reasoning.{
  normalize_reasoning_request, has_reasoning_continuity,
}
use claude_code_proxy.Converse.Request.System.{normalize_system_blocks}
use claude_code_proxy.Converse.Request.Config.{
  iterate, build_inference_config, build_tool_config, build_additional_fields, build_output_config,
}

pub record ConverseRequest : Type 0 where
  pub operation : String
  pub target_model_id : String
  pub inference_profile_id : Option String
  pub payload : Dict Value
  pub reasoning_enabled : Bool

-- a or b, of texts that may be None
unfoldable pub first_truthy : Option String → String → String
first_truthy none b = b
first_truthy (some a) b = if str_eq a "" then b else a

abbrev or_empty : Option String → String
or_empty none = ""
or_empty (some a) = a

unfoldable pub target_of : ResolvedModel → String
target_of model = first_truthy model.bedrock_model_id (or_empty model.inference_profile_id)

-- `messages or []`
abbrev or_no_messages : Value → Value
or_no_messages v = if truthy v then v else array []

-- `requested_reasoning is not None and _has_reasoning_continuity(...)`
unfoldable pub reasoning_of : Option ℤ → Value → Result Bool
reasoning_of none messages = ok false
reasoning_of (some budget) messages = iterate (or_no_messages messages) >>? has_reasoning_continuity

-- `payload[k] = m`, for a config that is not empty
abbrev pub config_entry : String → Dict Value → Dict Value
config_entry k [] = []
config_entry k (e ∷ m) = (k, object (e ∷ m)) ∷ []

abbrev pub blocks_entry : String → List Value → Dict Value
blocks_entry k [] = []
blocks_entry k (v ∷ vs) = (k, array (v ∷ vs)) ∷ []

abbrev pub enabled_budget : Bool → Option ℤ → Option ℤ
enabled_budget true budget = budget
enabled_budget false budget = none

abbrev pub operation_of : Bool → String
operation_of true = "converse_stream"
operation_of false = "converse"

module _ (repr : Value → String) where
  -- What follows the decision on reasoning.
  unfoldable pub build_payload :
      Fields → ResolvedModelCapabilities → Option ℤ → Bool → Result (Dict Value)
  build_payload request capabilities budget reasoning_enabled =
      iterate (get_field_or "messages" (array []) request) >>? λ raw_messages.
      normalize_messages repr reasoning_enabled raw_messages >>? λ messages.
      normalize_system_blocks repr (get_field_or "system" null request) >>? λ system.
      build_inference_config request >>? λ inference.
      build_tool_config repr request reasoning_enabled >>? λ tools.
      build_output_config (get_field_or "response_format" null request) capabilities >>? λ output.
      ok (
        ("messages", array messages)
        ∷ (blocks_entry "system" system
            ++ (config_entry "inferenceConfig" inference
                ++ (config_entry "toolConfig" tools
                    ++ (config_entry "additionalModelRequestFields" (
                          build_additional_fields request capabilities
                            (enabled_budget reasoning_enabled budget))
                        ++ config_entry "outputConfig" output)))))

  unfoldable pub build_converse_request : Fields → ResolvedModel → Result ConverseRequest
  build_converse_request request model =
      normalize_reasoning_request model.capabilities.supports_reasoning
        (get_field_or "thinking" null request) (get_field_or "reasoning_effort" null request)
      >>? λ budget.
          reasoning_of budget (get_field_or "messages" (array []) request) >>? λ reasoning_enabled.
          build_payload request model.capabilities budget reasoning_enabled >>? λ payload.
          ok (record {
            operation = operation_of (truthy (get_field_or "stream" null request));
            target_model_id = target_of model;
            inference_profile_id = model.inference_profile_id;
            payload = payload;
            reasoning_enabled = reasoning_enabled;
          })
