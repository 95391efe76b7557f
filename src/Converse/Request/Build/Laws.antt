-- ===== src/Converse/Request/Build/Laws.antt =====
-- When a request that was built for Bedrock reasons.
use claude_code_proxy.Prelude.{
  String, Bool, true, false, Option, none, some, List, [], ◌∷◌, ◌++◌, Dict, lookup, str_eq, ◌≡◌,
  refl, ap, ◌∙◌, ◌⊎◌, inl, inr,
}
use claude_code_proxy.Prelude.Int.{ℤ}
use claude_code_proxy.Json.{
  Value, null, bool, int, text, dict, array, object, Fields, fields, get_field, get_field_or,
  truthy,
}
use claude_code_proxy.Exec.{ok, ok_inj, step_ok}
use claude_code_proxy.Resolver.{ResolvedModel, ResolvedModelCapabilities}
use claude_code_proxy.Converse.Request.{normalize_messages}
use claude_code_proxy.Converse.Request.Messages.{AllMessages, normalize_messages-AllMessages}
use claude_code_proxy.Converse.Request.Reasoning.{
  normalize_reasoning_request, IsBudget, normalize_reasoning_request-IsBudget,
}
use claude_code_proxy.Converse.Request.System.{normalize_system_blocks}
use claude_code_proxy.Converse.Request.Config.{
  iterate, entry_if, thinking_entry, build_inference_config, build_tool_config,
  build_additional_fields, build_output_config,
}
use claude_code_proxy.Converse.Request.Build.{
  ConverseRequest, build_converse_request, build_payload, reasoning_of, config_entry, blocks_entry,
  enabled_budget, operation_of, target_of,
}

-- The thinking that a payload asks the model for.
abbrev asked_fields : Option Value → Option Value
asked_fields (some (dict m)) = get_field "thinking" m
asked_fields _ = none

abbrev pub thinking_of : Dict Value → Option Value
thinking_of payload = asked_fields (lookup "additionalModelRequestFields" payload)

abbrev pub thinking_value : ℤ → Value
thinking_value budget = object (("type", text "enabled") ∷ ("budget_tokens", int budget) ∷ [])

-- Thinking is asked for with a budget that the code allows, of a model that supports it; or not at all.
abbrev pub IsThinking : Bool → Bool → Dict Value → Type 0
IsThinking true supported payload =
    (supported ≡ true)
    × ((budget : ℤ) × IsBudget (some budget) × (thinking_of payload ≡ some (thinking_value budget)))
IsThinking false supported payload = thinking_of payload ≡ none

abbrev pub HasMessages : Dict Value → Type 0
HasMessages payload =
    (messages : List Value) × AllMessages messages
    × (lookup "messages" payload ≡ some (array messages))

skip-config :
    (k j : String) (m : Dict Value) (rest : Dict Value)
    → str_eq j k ≡ false
    → lookup k (config_entry j m ++ rest) ≡ lookup k rest
unfolding lookup
skip-config k j [] rest h = refl
skip-config k j (e ∷ m) rest h = rw h refl

skip-blocks :
    (k j : String) (vs : List Value) (rest : Dict Value)
    → str_eq j k ≡ false
    → lookup k (blocks_entry j vs ++ rest) ≡ lookup k rest
unfolding lookup
skip-blocks k j [] rest h = refl
skip-blocks k j (v ∷ vs) rest h = rw h refl

asked :
    (m output : Dict Value)
    → asked_fields (
        lookup "additionalModelRequestFields"
          (config_entry "additionalModelRequestFields" m ++ config_entry "outputConfig" output))
      ≡ get_field "thinking" (fields m)
unfolding lookup
asked [] [] = refl
asked [] (e ∷ output) = refl
asked (e ∷ m) output = refl

entry-thinking :
    (b : Bool) (rest : Dict Value)
    → get_field "thinking" (fields (entry_if b "disable_parallel_tool_use" (bool true) ++ rest))
      ≡ get_field "thinking" (fields rest)
entry-thinking true rest = refl
entry-thinking false rest = refl

abbrev value_of : Option ℤ → Option Value
value_of none = none
value_of (some n) = some (thinking_value n)

thinking-additional :
    (request : Fields) (capabilities : ResolvedModelCapabilities) (budget : Option ℤ)
    → get_field "thinking" (fields (build_additional_fields request capabilities budget))
      ≡ value_of budget
unfolding build_additional_fields
thinking-additional request capabilities none = entry-thinking _ []
thinking-additional request capabilities (some n) = entry-thinking _ (thinking_entry (some n))

-- The messages and the thinking of a payload.
record IsPayload (thinking : Option Value) (payload : Dict Value) : Type 0 where
  messages : List Value
  all_messages : AllMessages messages
  messages_at : lookup "messages" payload ≡ some (array messages)
  thinking_at : thinking_of payload ≡ thinking

payload_of :
    (request : Fields) (capabilities : ResolvedModelCapabilities) (budget : Option ℤ)
    (messages system : List Value) (inference tools output : Dict Value)
    → AllMessages messages
    → IsPayload (value_of budget) (
        ("messages", array messages)
        ∷ (blocks_entry "system" system
            ++ (config_entry "inferenceConfig" inference
                ++ (config_entry "toolConfig" tools
                    ++ (config_entry "additionalModelRequestFields"
                          (build_additional_fields request capabilities budget)
                        ++ config_entry "outputConfig" output)))))
unfolding lookup
payload_of request capabilities budget messages system inference tools output h = record {
  messages = messages;
  all_messages = h;
  messages_at = refl;
  thinking_at =
      ap asked_fields (
        skip-blocks "additionalModelRequestFields" "system" system _ refl
        ∙ skip-config "additionalModelRequestFields" "inferenceConfig" inference _ refl
        ∙ skip-config "additionalModelRequestFields" "toolConfig" tools _ refl)
      ∙ asked (build_additional_fields request capabilities budget) output
      ∙ thinking-additional request capabilities budget;
}

module _ (repr : Value → String) where
  build_payload-IsPayload :
      (request : Fields) (capabilities : ResolvedModelCapabilities) (budget : Option ℤ)
      (reasoning_enabled : Bool) (payload : Dict Value)
      → build_payload repr request capabilities budget reasoning_enabled ≡ ok payload
      → IsPayload (value_of (enabled_budget reasoning_enabled budget)) payload
  unfolding build_payload
  build_payload-IsPayload request capabilities budget reasoning_enabled payload h =
      let (raw, _, h1) =
        step_ok (iterate (get_field_or "messages" (array []) request)) _ payload h in
      let (messages, q, h2) =
        step_ok (normalize_messages repr reasoning_enabled raw) _ payload h1 in
      let (system, _, h3) =
        step_ok (normalize_system_blocks repr (get_field_or "system" null request)) _ payload h2 in
      let (inference, _, h4) = step_ok (build_inference_config request) _ payload h3 in
      let (tools, _, h5) =
        step_ok (build_tool_config repr request reasoning_enabled) _ payload h4 in
      let (output, _, h6) =
        step_ok (build_output_config (get_field_or "response_format" null request) capabilities) _
          payload h5 in
      rw (← ok_inj h6) (
        payload_of request capabilities (enabled_budget reasoning_enabled budget) messages system
          inference tools output
          (normalize_messages-AllMessages repr reasoning_enabled raw messages q).1)

  thinks :
      (supported : Bool) (budget : Option ℤ) (b : Bool) (raw : Value) (payload : Dict Value)
      → ((supported ≡ true) ⊎ (budget ≡ none))
      → IsBudget budget
      → reasoning_of budget raw ≡ ok b
      → thinking_of payload ≡ value_of (enabled_budget b budget)
      → IsThinking b supported payload
  unfolding reasoning_of
  thinks supported budget false raw payload s i q t = t
  thinks supported none true raw payload s i q t = cc (ok_inj q)
  thinks supported (some n) true raw payload (inl s) i q t = (s, (n, i, t))
  thinks supported (some n) true raw payload (inr s) i q t = cc s

  -- A request that was built asks the model for thinking exactly if it is marked as reasoning; then the
  -- model supports reasoning and the budget is at least 1024 tokens. Its messages all have a valid role and
  -- a list of content blocks, and its operation is the one that the client's `stream` asks for.
  pub build_converse_request-IsThinking :
      (request : Fields) (model : ResolvedModel) (built : ConverseRequest)
      → build_converse_request repr request model ≡ ok built
      → IsThinking built.reasoning_enabled model.capabilities.supports_reasoning built.payload
        × HasMessages built.payload
        × (built.operation ≡ operation_of (truthy (get_field_or "stream" null request)))
        × (built.target_model_id ≡ target_of model)
  unfolding build_converse_request
  build_converse_request-IsThinking request model built h =
      let supported = model.capabilities.supports_reasoning in
      let thinking = get_field_or "thinking" null request in
      let effort = get_field_or "reasoning_effort" null request in
      let raw = get_field_or "messages" (array []) request in
      let (budget, q1, h1) =
        step_ok (normalize_reasoning_request supported thinking effort) _ built h in
      let (b, q2, h2) = step_ok (reasoning_of budget raw) _ built h1 in
      let (payload, q3, h3) =
        step_ok (build_payload repr request model.capabilities budget b) _ built h2 in
      let p = build_payload-IsPayload request model.capabilities budget b payload q3 in
      let (s, i) = normalize_reasoning_request-IsBudget supported thinking effort budget q1 in
      rw (← ok_inj h3) (
        thinks supported budget b raw payload s i q2 p.thinking_at,
        (p.messages, p.all_messages, p.messages_at),
        refl,
        refl,
      )
