-- ===== src/Tests/Recorded.antt =====
-- api/proxy_router.py: a request that is built and served, and what is not asked of it.
use claude_code_proxy.Prelude.{
  ℕ, Bool, true, false, none, some, [], ◌∷◌, ◌≡◌, refl, lookup, insert, if◌then◌else◌,
}
use claude_code_proxy.Json.{Value, int, text, array, object, dict}
use claude_code_proxy.Exec.{ok, ◌>>=◌}
use claude_code_proxy.Policy as Policy
use claude_code_proxy.Quota.{
  get_active_pricing, build_usage_snapshot, evaluate, select_effective_policy,
}
use claude_code_proxy.Converse.Stream.{new_decoder}
use claude_code_proxy.Converse.Response.{fields_of}
use claude_code_proxy.Converse.Request.Build.{
  ConverseRequest, build_converse_request, build_payload, first_truthy, reasoning_of, target_of,
}
use claude_code_proxy.Router.{
  StreamingReply, streaming, message, model_of, resolve_requested, authenticate_request, check_rate,
}
use claude_code_proxy.Router.Messages.{
  on_resolved, call_bedrock, within_quota, forward, on_policy, on_quota, on_rate, serve,
  within_policy,
}
use claude_code_proxy.Router.CreateMessage.{create_message, after_authentication}
use claude_code_proxy.Router.CountTokens.{count_of_request, count_tokens, input_tokens_of}
use claude_code_proxy.Router.CountTokens.{counted as counted_reply}
use claude_code_proxy.Router.CountTokens.Counted.{IsCounted, count_tokens-IsCounted}
use claude_code_proxy.Json.Convert.{int_of_value}
use claude_code_proxy.Text.Number.{int_of_text}
use claude_code_proxy.Prelude.Int.{pos}
use claude_code_proxy.Router.Served.{IsOfUser, create_message-IsOfUser}
use claude_code_proxy.Router.Unlimited.{open_decision, on_resolved_open}
use claude_code_proxy.Tests.Fixtures.{alice, whole}
use claude_code_proxy.Tests.Router.{shown, World, dependencies, start, request}
use claude_code_proxy.Tests.Served.{asked, context, sonnet}
use claude_code_proxy.Converse.Request.{
  block_content, coerce_blocks, collect_from, leading_thinking, map_tool_choice, message_of,
  normalize_content_blocks, normalize_message, normalize_messages,
}
use claude_code_proxy.Auth.{authenticate, extract_virtual_key, restore_trusted_request_context}
use claude_code_proxy.Resolver.{find_alias_rule, find_route, resolve}
use claude_code_proxy.Converse.Request.Config.{
  build_additional_fields, build_inference_config, build_output_config, build_tool_config, iterate,
  stop_sequences_of, tools_entry,
}
use claude_code_proxy.Glob.{fnmatchcase}
use claude_code_proxy.Audit.{user_of}
use claude_code_proxy.Converse.Request.System.{normalize_system_blocks}
use claude_code_proxy.Text.{has_prefix, is_space, partition_blank, strip}
use claude_code_proxy.Converse.Request.Reasoning.{normalize_reasoning_request}
use claude_code_proxy.RateLimiter.{check}
use claude_code_proxy.Observability.{kept_request_id, resolve_request_id}

on_resolved_open_example :
    on_resolved shown whole (dependencies alice) (asked alice false) start
    ≡ (get_active_pricing whole none (some "sonnet-v1") >>= λ pricing.
          within_quota shown whole
            (dependencies alice)
            (asked alice false)
            (open_decision (asked alice false).authenticated.user_record)
            none)
        start
unfolding restore_trusted_request_context
on_resolved_open_example =
    on_resolved_open shown whole (dependencies alice) (asked alice false) start refl refl

abbrev pub sent : Bool → ConverseRequest
sent stream = record {
  operation = if stream then "converse_stream" else "converse";
  target_model_id = "sonnet-v1";
  inference_profile_id = none;
  payload =
      (
        "messages",
        array (
            object (
              ("role", text "user")
              ∷ ("content", array (object (("text", text "hi") ∷ []) ∷ []))
              ∷ [])
            ∷ []),
      )
      ∷ [];
  reasoning_enabled = false;
}

built : build_converse_request shown (request false) sonnet ≡ ok (sent false)
unfolding build_converse_request normalize_reasoning_request reasoning_of build_payload iterate
    normalize_messages collect_from normalize_message message_of normalize_content_blocks
    coerce_blocks leading_thinking block_content map_tool_choice normalize_system_blocks
    build_inference_config stop_sequences_of build_tool_config tools_entry build_output_config
    build_additional_fields target_of first_truthy
built = refl

abbrev after_count : World
after_count = record start { calls = 1 }

abbrev twelve : Value
twelve = object (("input_tokens", int (pos 12)) ∷ [])

answered :
    count_tokens shown (dependencies alice) (some "Bearer vk_abc") (dict (request false)) start
    ≡ (ok (message twelve), after_count)
unfolding count_tokens count_of_request resolve_request_id kept_request_id strip is_space
    counted_reply authenticate_request authenticate extract_virtual_key partition_blank has_prefix
    model_of resolve_requested resolve find_alias_rule fnmatchcase find_route fields_of
    restore_trusted_request_context build_converse_request normalize_reasoning_request reasoning_of
    build_payload iterate normalize_messages collect_from normalize_message message_of
    normalize_content_blocks coerce_blocks leading_thinking block_content map_tool_choice
    normalize_system_blocks build_inference_config stop_sequences_of build_tool_config tools_entry
    build_output_config build_additional_fields target_of first_truthy input_tokens_of int_of_value
    int_of_text
answered = refl

count_tokens-IsCounted_example :
    IsCounted shown
      (dependencies alice)
      (some "Bearer vk_abc")
      (dict (request false))
      start
      twelve
      after_count
count_tokens-IsCounted_example =
    count_tokens-IsCounted shown (dependencies alice) (some "Bearer vk_abc") (dict (request false))
      start after_count twelve answered

abbrev pub stream_reply : StreamingReply ℕ ℕ
stream_reply = record {
  raw_stream = [];
  decoder = new_decoder (text "claude");
  authenticated = context alice;
  request_id = "r1";
  requested_model = "claude";
  resolved_model = some "sonnet-v1";
  policy_decision = open_decision alice;
  usage_snapshot = none;
  started_at = 0;
}

abbrev pub after_call : World
after_call = record {
  limiter = record { requests_per_minute = 1; request_windows = ("u1", 60000000 ∷ []) ∷ [] };
  usages = [];
  audits = [];
  calls = 1;
}

built_stream : build_converse_request shown (request true) sonnet ≡ ok (sent true)
unfolding build_converse_request normalize_reasoning_request reasoning_of build_payload iterate
    normalize_messages collect_from normalize_message message_of normalize_content_blocks
    coerce_blocks leading_thinking block_content map_tool_choice normalize_system_blocks
    build_inference_config stop_sequences_of build_tool_config tools_entry build_output_config
    build_additional_fields target_of first_truthy
built_stream = refl

served :
    create_message shown whole
      (dependencies alice)
      (some "Bearer vk_abc")
      (dict (request true))
      start
    ≡ (ok (streaming stream_reply), after_call)
unfolding create_message on_resolved call_bedrock model_of resolve_requested authenticate_request
    within_quota resolve_request_id kept_request_id strip is_space after_authentication authenticate
    extract_virtual_key partition_blank has_prefix serve resolve find_alias_rule fnmatchcase
    find_route fields_of restore_trusted_request_context on_policy within_policy on_quota on_rate
    forward check_rate check user_of Policy.evaluate Policy.resolve_effective_max_output_tokens
    Policy.collect_policies_by_scope Policy.token_limits build_usage_snapshot evaluate
    select_effective_policy insert lookup get_active_pricing build_converse_request
    normalize_reasoning_request reasoning_of build_payload iterate normalize_messages collect_from
    normalize_message message_of normalize_content_blocks coerce_blocks leading_thinking
    block_content map_tool_choice normalize_system_blocks build_inference_config stop_sequences_of
    build_tool_config tools_entry build_output_config build_additional_fields target_of first_truthy
served = refl

create_message-IsOfUser_example : IsOfUser shown whole (dependencies alice) (some "Bearer vk_abc")
create_message-IsOfUser_example =
    create_message-IsOfUser shown whole (dependencies alice) (some "Bearer vk_abc")
      (dict (request true)) start after_call (streaming stream_reply) served tt
