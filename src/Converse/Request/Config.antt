-- ===== src/Converse/Request/Config.antt =====
-- proxy/bedrock_converse/request_builder.py: the configurations of inference, tools and output, and the
-- additional fields of the model.
use claude_code_proxy.Prelude.{
  String, Bool, true, false, not, ◌&&◌, Option, none, some, List, [], ◌∷◌, ◌++◌, Dict,
  if◌then◌else◌,
}
use claude_code_proxy.Prelude.Int.{ℤ}
use claude_code_proxy.Json.{
  Value, null, bool, int, text, list, dict, nil, Fields, end, field, array, object, get_field_or,
  is_none, is_text, to_list, truthy, str,
}
use claude_code_proxy.Exec.{Exn, Result, ok, raised, request_build, other, ◌>>?◌}
use claude_code_proxy.Resolver.{ResolvedModelCapabilities}
use claude_code_proxy.Text.{characters}
use claude_code_proxy.Converse.Response.{fields_of}
use claude_code_proxy.Converse.Request.{map_tool_choice}
use claude_code_proxy.Converse.Request.Schema.{normalize_schema}

abbrev texts : List String → List Value
texts [] = []
texts (s ∷ ss) = text s ∷ texts ss

abbrev keys : Fields → List Value
keys end = []
keys (field k v m) = text k ∷ keys m

-- `for x in v`, and list(v)
unfoldable pub iterate : Value → Result (List Value)
iterate (list vs) = ok (to_list vs)
iterate (dict m) = ok (keys m)
iterate (text s) = ok (texts (characters s))
iterate v = raised (other "TypeError")

-- an entry of a payload that is put in only if it is there
abbrev pub entry_if : Bool → String → Value → Dict Value
entry_if true k v = (k, v) ∷ []
entry_if false k v = []

abbrev given : String → String → Fields → Dict Value
given k name m = entry_if (not (is_none (get_field_or k null m))) name (get_field_or k null m)

unfoldable pub stop_sequences_of : Value → Result (Dict Value)
stop_sequences_of null = ok []
stop_sequences_of v = iterate v >>? λ vs. ok (("stopSequences", array vs) ∷ [])

-- _build_inference_config
unfoldable pub build_inference_config : Fields → Result (Dict Value)
build_inference_config request =
    stop_sequences_of (get_field_or "stop_sequences" null request) >>? λ stop. ok (
      given "max_tokens" "maxTokens" request
      ++ (stop ++ (given "temperature" "temperature" request ++ given "top_p" "topP" request)))

-- dict(schema): what is no object gives an empty dict where it is empty itself, and is refused else
unfoldable pub schema_fields : Value → Result Fields
schema_fields (dict m) = ok m
schema_fields (list nil) = ok end
schema_fields (list vs) = raised (other "ValueError")
schema_fields (text s) = if truthy (text s) then raised (other "ValueError") else ok end
schema_fields v = raised (other "TypeError")

abbrev default_schema : Value
default_schema = object (("type", text "object") ∷ [])

module _ (repr : Value → String) where
  unfoldable pub tool_spec : Value → Result Value
  tool_spec tool = fields_of tool >>? λ m.
      schema_fields (get_field_or "input_schema" default_schema m) >>? λ schema. ok (
        object (
          (
            "toolSpec",
            object (
                ("name", text (str repr (get_field_or "name" (text "") m)))
                ∷ ("description", get_field_or "description" null m)
                ∷ ("inputSchema", object (("json", normalize_schema schema) ∷ []))
                ∷ []),
          )
          ∷ []))

  unfoldable pub tool_specs : List Value → Result (List Value)
  tool_specs [] = ok []
  tool_specs (v ∷ vs) = tool_spec v >>? λ t. tool_specs vs >>? λ ts. ok (t ∷ ts)

  -- `request.get("tools") or []`: every falsy value is no tools
  unfoldable pub tools_entry : Value → Result (Dict Value)
  tools_entry tools =
      if truthy tools
      then (iterate tools >>? tool_specs) >>? (λ ts. ok (("tools", array ts) ∷ []))
      else ok []

  abbrev choice_entry : Option Value → Dict Value
  choice_entry none = []
  choice_entry (some v) = ("toolChoice", v) ∷ []

  -- _build_tool_config, without tools and a choice the empty dict, which counts like None
  unfoldable pub build_tool_config : Fields → Bool → Result (Dict Value)
  build_tool_config request reasoning_enabled =
      tools_entry (get_field_or "tools" null request) >>? λ tools. ok (
        tools
        ++ choice_entry
            (map_tool_choice repr (get_field_or "tool_choice" null request) reasoning_enabled))

abbrev is_false : Value → Bool
is_false (bool b) = not b
is_false v = false

abbrev pub thinking_entry : Option ℤ → Dict Value
thinking_entry none = []
thinking_entry (some budget) =
    ("thinking", object (("type", text "enabled") ∷ ("budget_tokens", int budget) ∷ [])) ∷ []

-- _build_additional_model_request_fields
unfoldable pub build_additional_fields : Fields → ResolvedModelCapabilities → Option ℤ → Dict Value
build_additional_fields request capabilities reasoning =
    entry_if
      (is_false (get_field_or "parallel_tool_calls" null request)
        && capabilities.supports_disable_parallel_tool_use)
      "disable_parallel_tool_use" (bool true)
    ++ thinking_entry reasoning

abbrev not_supported : String → Exn
not_supported message = request_build "structured_output_not_supported" message

-- json_schema.get("schema"), of a dict that has a dict there
unfoldable pub schema_of : Value → Option (Fields × Fields)
schema_of (dict m) = elim (get_field_or "schema" null m) [
  | dict schema ↦ some (m, schema)
  | _ ↦ none
]
schema_of v = none

abbrev native_schema : Bool → Option (Fields × Fields) → Result (Fields × Fields)
native_schema true (some s) = ok s
native_schema _ _ =
    raised (not_supported "Native structured output is not supported for this model.")

unfoldable pub output_format : ResolvedModelCapabilities → Fields → Result (Dict Value)
output_format capabilities format =
    if is_text "json_object" (get_field_or "type" null format)
    then raised (not_supported "Schema-less structured output is not supported.")
    else (native_schema capabilities.supports_native_structured_output
          (schema_of (get_field_or "json_schema" null format))
        >>? λ s. ok (
            (
              "textFormat",
              object (
                  ("type", text "json_schema")
                  ∷ (
                    "structure",
                    object (
                        (
                          "jsonSchema",
                          object (
                              ("schema", normalize_schema s.1) ∷ given "name" "name" s.0
                              ++ given "description" "description" s.0),
                        )
                        ∷ []),
                  )
                  ∷ []),
            )
            ∷ []))

-- _build_output_config
unfoldable pub build_output_config : Value → ResolvedModelCapabilities → Result (Dict Value)
build_output_config null capabilities = ok []
build_output_config (dict format) capabilities = output_format capabilities format
build_output_config v capabilities =
    raised (not_supported "Unsupported structured output configuration.")
