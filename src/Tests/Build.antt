-- ===== src/Tests/Build.antt =====
-- proxy/bedrock_converse/request_builder.py: a request that reasons, and a schema that is closed.
use claude_code_proxy.Prelude.{String, true, false, none, some, [], ◌∷◌, ◌≡◌, ◌↔◌, refl}
use claude_code_proxy.Prelude.Int.{pos}
use claude_code_proxy.Json.{Value, bool, int, text, array, object, Fields, fields, dict}
use claude_code_proxy.Exec.{ok}
use claude_code_proxy.Resolver.{ResolvedModel}
use claude_code_proxy.Converse.Request.Schema.{normalize_schema, inject}
use claude_code_proxy.Converse.Request.Schema.Closed.{normalize_schema-closed}
use claude_code_proxy.Converse.Request.Schema.Spec.{every, says, forbids, permits_none}
use claude_code_proxy.Converse.Request.Build.{
  ConverseRequest, build_converse_request, target_of, operation_of, build_payload, first_truthy,
  reasoning_of,
}
use claude_code_proxy.Converse.Request.Build.Laws.{
  IsThinking, HasMessages, build_converse_request-IsThinking,
}
use claude_code_proxy.Converse.Request.{
  block_content, coerce_blocks, collect_from, leading_thinking, map_tool_choice, message_of,
  normalize_content_blocks, normalize_message, normalize_messages,
}
use claude_code_proxy.Converse.Request.Reasoning.{
  breaks_continuity, has_reasoning_continuity, normalize_reasoning_request, reasoning_budget,
}
use claude_code_proxy.Converse.Request.Config.{
  build_additional_fields, build_inference_config, build_output_config, build_tool_config, iterate,
  stop_sequences_of, tools_entry,
}
use claude_code_proxy.Converse.Request.System.{normalize_system_blocks}
use claude_code_proxy.Json.Convert.{int_of_value}

abbrev shown : Value → String
shown v = "?"

abbrev thinker : ResolvedModel
thinker = record {
  requested_model = "claude";
  logical_model = "sonnet";
  provider = "bedrock";
  bedrock_api_route = "converse";
  bedrock_model_id = some "sonnet-v1";
  inference_profile_id = none;
  aws_region_name = none;
  capabilities = record {
    supports_native_structured_output = false;
    supports_reasoning = true;
    supports_prompt_cache_ttl = false;
    supports_disable_parallel_tool_use = false;
  };
}

abbrev thoughtful : Fields
thoughtful = fields (
    ("model", text "claude")
    ∷ ("messages", array (object (("role", text "user") ∷ ("content", text "hi") ∷ []) ∷ []))
    ∷ ("thinking", object (("budget_tokens", int (pos 5)) ∷ []))
    ∷ [])

abbrev sent : ConverseRequest
sent = record {
  operation = "converse";
  target_model_id = "sonnet-v1";
  inference_profile_id = none;
  payload =
      (
        "messages",
        array (
            object (
              ("role", text "user")
              ∷ ("content", array (object (("text", text "hi") ∷ []) ∷ []))
              ∷ [])
            ∷ []),
      )
      ∷ (
        "additionalModelRequestFields",
        object (
            ("thinking", object (("type", text "enabled") ∷ ("budget_tokens", int (pos 1024)) ∷ []))
            ∷ []),
      )
      ∷ [];
  reasoning_enabled = true;
}

built : build_converse_request shown thoughtful thinker ≡ ok sent
unfolding build_converse_request normalize_reasoning_request reasoning_of build_payload iterate
    normalize_messages collect_from normalize_message message_of normalize_content_blocks
    coerce_blocks leading_thinking block_content map_tool_choice normalize_system_blocks
    build_inference_config stop_sequences_of build_tool_config tools_entry build_output_config
    build_additional_fields target_of first_truthy has_reasoning_continuity reasoning_budget
    breaks_continuity int_of_value
built = refl

build_converse_request-IsThinking_example :
    IsThinking true true sent.payload
    × HasMessages sent.payload
    × (sent.operation ≡ operation_of false)
    × (sent.target_model_id ≡ target_of thinker)
build_converse_request-IsThinking_example =
    build_converse_request-IsThinking shown thoughtful thinker sent built

abbrev open_schema : Fields
open_schema = fields (
    ("type", text "object")
    ∷ ("properties", object (("name", object (("type", text "object") ∷ [])) ∷ []))
    ∷ [])

normalize_schema-closed_example :
    (every says (normalize_schema open_schema) ≡ true)
    × (every forbids (normalize_schema open_schema) ≡ every permits_none (dict open_schema))
    × ((every says (dict open_schema) ≡ true) ↔ (normalize_schema open_schema ≡ dict open_schema))
normalize_schema-closed_example = normalize_schema-closed open_schema

closed_properties :
    normalize_schema open_schema
    ≡ object (
        ("type", text "object")
        ∷ (
          "properties",
          object (
              ("name", object (("type", text "object") ∷ ("additionalProperties", bool false) ∷ []))
              ∷ []),
        )
        ∷ ("additionalProperties", bool false)
        ∷ [])
unfolding normalize_schema inject
closed_properties = refl

-- A member that is there is kept: this schema lets other properties in, before and after.
abbrev permissive_schema : Fields
permissive_schema = fields (("type", text "object") ∷ ("additionalProperties", bool true) ∷ [])

permissive_kept : normalize_schema permissive_schema ≡ dict permissive_schema
unfolding normalize_schema inject
permissive_kept = refl
