-- ===== src/Converse/Response.antt =====
-- proxy/bedrock_converse/response_parser.py: the message that a response of Bedrock becomes.
pub mod StopReason
use claude_code_proxy.Prelude.{
  String, Bool, true, false, not, Option, none, some, List, [], ◌∷◌, ◌++◌, Dict, insert,
  if◌then◌else◌,
}
use claude_code_proxy.Prelude.Int.{ℤ, pos}
use claude_code_proxy.Json.{
  Value, null, bool, int, real, text, list, dict, Items, nil, cons, Fields, array, object,
  get_field, get_field_or, has_field, is_none, truthy,
}
use claude_code_proxy.Json.Convert.{int_of_value, or_key_error}
use claude_code_proxy.Exec.{Result, ok, raised, other, ◌>>?◌}
use claude_code_proxy.Converse.{is_supported}

pub record Usage : Type 0 where
  pub input_tokens : ℤ
  pub output_tokens : ℤ
  pub total_tokens : ℤ
  pub cache_write_input_tokens : ℤ
  pub cache_read_input_tokens : ℤ
  pub cache_details : Value

unfoldable pub usage_dict : Usage → Value
usage_dict u = object (
    ("input_tokens", int u.input_tokens)
    ∷ ("output_tokens", int u.output_tokens)
    ∷ ("total_tokens", int u.total_tokens)
    ∷ ("cache_write_input_tokens", int u.cache_write_input_tokens)
    ∷ ("cache_read_input_tokens", int u.cache_read_input_tokens)
    ∷ ("cache_details", u.cache_details)
    ∷ [])

-- `x.get`, of what may not be a dict
unfoldable pub fields_of : Value → Result Fields
fields_of (dict m) = ok m
fields_of v = raised (other "AttributeError")

-- int(usage.get(k, 0) or 0)
unfoldable pub count_of : String → Fields → Result ℤ
count_of k m =
    let v = get_field_or k (int (pos 0)) m in if truthy v then int_of_value v else ok (pos 0)

unfoldable pub usage_of_fields : Fields → Result Usage
usage_of_fields m = count_of "inputTokens" m >>? λ input. count_of "outputTokens" m >>? λ output.
    count_of "totalTokens" m >>? λ total. count_of "cacheWriteInputTokens" m >>? λ cache_write.
    count_of "cacheReadInputTokens" m >>? λ cache_read. ok (record {
      input_tokens = input;
      output_tokens = output;
      total_tokens = total;
      cache_write_input_tokens = cache_write;
      cache_read_input_tokens = cache_read;
      cache_details = get_field_or "cacheDetails" null m;
    })

-- `None` and every other falsy usage count as {}
unfoldable pub normalize_usage : Value → Result Usage
normalize_usage usage =
    (if truthy usage then fields_of usage else fields_of (object [])) >>? usage_of_fields

-- _map_stop_reason: what is not a text is in no set of texts, and a list or a dict cannot be asked
unfoldable pub map_stop_reason : Value → Result (Option String × Dict Value)
map_stop_reason null = ok (none, [])
map_stop_reason (text raw) =
    if is_supported raw
    then ok (some raw, [])
    else ok (some "end_turn", ("raw_stop_reason", text raw) ∷ [])
map_stop_reason (list vs) = raised (other "TypeError")
map_stop_reason (dict m) = raised (other "TypeError")
map_stop_reason v = ok (some "end_turn", ("raw_stop_reason", v) ∷ [])

-- The three lists that the loop over the content fills.
pub record Blocks : Type 0 where
  pub content_blocks : List Value
  pub thinking_blocks : List Value
  pub provider_reasoning : List Value

unfoldable pub tool_use_block : Fields → Result Value
tool_use_block tool_use = or_key_error (get_field "toolUseId" tool_use) >>? λ id_.
    or_key_error (get_field "name" tool_use) >>? λ name. ok (
      object (
        ("type", text "tool_use")
        ∷ ("id", id_)
        ∷ ("name", name)
        ∷ ("input", get_field_or "input" (object []) tool_use)
        ∷ []))

unfoldable pub thinking_block : Fields → Result Value
thinking_block reasoning =
    fields_of (get_field_or "reasoningText" (object []) reasoning) >>? λ reasoning_text. ok (
      object (
        ("type", text "thinking")
        ∷ ("thinking", get_field_or "text" (text "") reasoning_text)
        ∷ (if is_none (get_field_or "signature" null reasoning)
            then []
            else ("signature", get_field_or "signature" null reasoning) ∷ [])))

unfoldable pub add_block : Blocks → Fields → Result Blocks
add_block bs block = elim (get_field "text" block) [
  | some t ↦ ok (record {
    content_blocks = bs.content_blocks ++ (object (("type", text "text") ∷ ("text", t) ∷ []) ∷ []);
    thinking_blocks = bs.thinking_blocks;
    provider_reasoning = bs.provider_reasoning;
  })
  | none ↦ elim (get_field "toolUse" block) [
    | some tool_use ↦ (fields_of tool_use >>? tool_use_block) >>? λ b. ok (record {
      content_blocks = bs.content_blocks ++ (b ∷ []);
      thinking_blocks = bs.thinking_blocks;
      provider_reasoning = bs.provider_reasoning;
    })
    | none ↦ elim (get_field "reasoningContent" block) [
      | some reasoning ↦ (fields_of reasoning >>? thinking_block) >>? λ b. ok (record {
        content_blocks = bs.content_blocks;
        thinking_blocks = bs.thinking_blocks ++ (b ∷ []);
        provider_reasoning = bs.provider_reasoning ++ (reasoning ∷ []);
      })
      | none ↦ ok bs
    ]
  ]
]

unfoldable pub add_blocks : Blocks → Items → Result Blocks
add_blocks bs nil = ok bs
add_blocks bs (cons v vs) = fields_of v >>? λ block. add_block bs block >>? λ bs'. add_blocks bs' vs

abbrev no_blocks : Blocks
no_blocks = record { content_blocks = []; thinking_blocks = []; provider_reasoning = [] }

-- The content of a message is a list.
unfoldable pub items_of : Value → Result Items
items_of (list vs) = ok vs
items_of v = raised (other "TypeError")

abbrev entry_unless_empty : String → List Value → Dict Value
entry_unless_empty k [] = []
entry_unless_empty k (v ∷ vs) = (k, array (v ∷ vs)) ∷ []

abbrev metadata_entry : Dict Value → Dict Value
metadata_entry [] = []
metadata_entry (e ∷ m) = ("provider_metadata", object (e ∷ m)) ∷ []

abbrev text_or_null : Option String → Value
text_or_null none = null
text_or_null (some s) = text s

unfoldable pub parse_converse_response : Fields → Option String → Result Value
parse_converse_response response model =
    fields_of (get_field_or "output" (object []) response) >>? λ output.
    fields_of (get_field_or "message" (object []) output) >>? λ output_message.
    items_of (get_field_or "content" (array []) output_message) >>? λ raw_content.
    add_blocks no_blocks raw_content >>? λ bs.
    map_stop_reason (get_field_or "stopReason" null response) >>? λ stop.
    fields_of (get_field_or "requestMetadata" (object []) response) >>? λ request_metadata.
    normalize_usage (get_field_or "usage" null response) >>? λ usage. ok (
      object (
        ("id", get_field_or "requestId" (text "msg_bedrock") request_metadata)
          ∷ ("type", text "message")
          ∷ ("role", get_field_or "role" (text "assistant") output_message)
          ∷ ("model", text_or_null model)
          ∷ ("content", array bs.content_blocks)
          ∷ ("stop_reason", text_or_null stop.0)
          ∷ ("stop_sequence", get_field_or "stopSequence" null response)
          ∷ ("usage", usage_dict usage)
          ∷ entry_unless_empty "thinking_blocks" bs.thinking_blocks
        ++ metadata_entry (stop.1 ++ entry_unless_empty "reasoning" bs.provider_reasoning)))
