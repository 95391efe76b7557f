-- ===== src/Converse/Request.antt =====
-- proxy/bedrock_converse/request_builder.py: the messages, the reasoning and the choice of a tool in
-- a request to Bedrock. `repr` prints a value that is not a text, as `str` does.
pub mod Messages
pub mod Reasoning
pub mod Schema
pub mod System
pub mod Config
pub mod Build
use Prim.Native.String.{◌++◌ as str_append}
use claude_code_proxy.Prelude.{
  String, Bool, true, false, not, ◌&&◌, ◌||◌, Option, none, some, List, [], ◌∷◌, ◌++◌, any, str_eq,
  if◌then◌else◌,
}
use claude_code_proxy.Prelude.Int.{ℤ, pos, max_ℤ}
use claude_code_proxy.Json.{
  Value, null, bool, int, real, text, list, dict, Items, Fields, nil, cons, end, field, array,
  object, get_field_or, is_none, is_text, to_list, to_dict, truthy, str,
}
use claude_code_proxy.Json.Convert.{int_of_value}
use claude_code_proxy.Exec.{Exn, Result, ok, raised, request_build, other, ◌>>?◌}

abbrev pub invalid_content : String → Exn
invalid_content message = request_build "invalid_content" message

-- _coerce_blocks
unfoldable pub coerce_blocks : Value → Result (List Value)
coerce_blocks null = ok []
coerce_blocks (text s) = ok (text s ∷ [])
coerce_blocks (list vs) = ok (to_list vs)
coerce_blocks v = raised (invalid_content "Message content must be a string or list of blocks.")

-- passthrough.pop("type", None), of a dict
unfoldable pub without_type : Fields → Fields
without_type end = end
without_type (field k v m) =
    let rest = without_type m in if str_eq k "type" then rest else field k v rest

abbrev pub text_content : String → Value
text_content s = object (("text", text s) ∷ [])

-- xs, then the blocks that f makes of each further value, in order
unfoldable pub collect_from : (Value → Result (List Value)) → List Value → Result (List Value)
collect_from f [] = ok []
collect_from f (v ∷ vs) = f v >>? λ bs. collect_from f vs >>? λ rest. ok (bs ++ rest)

-- a list or a dict cannot be looked for in a set
abbrev is_unhashable : Value → Bool
is_unhashable (list vs) = true
is_unhashable (dict m) = true
is_unhashable v = false

-- _map_tool_choice
abbrev pub auto_choice : Value
auto_choice = object (("auto", object []) ∷ [])

module _ (repr : Value → String) where
  abbrev text_at : String → Fields → String
  text_at k m = str repr (get_field_or k (text "") m)

  -- one block of _normalize_thinking_blocks
  unfoldable pub thinking_content : Value → Result (List Value)
  thinking_content (dict m) =
      if not (is_text "thinking" (get_field_or "type" null m))
      then ok []
      else ok (
          object (
            (
              "reasoningContent",
              object (
                  ("reasoningText", object (("text", text (text_at "thinking" m)) ∷ []))
                  ∷ (if truthy (get_field_or "signature" null m)
                      then ("signature", get_field_or "signature" null m) ∷ []
                      else [])),
            )
            ∷ [])
          ∷ [])
  thinking_content v = raised (invalid_content "Unsupported thinking block.")

  unfoldable pub normalize_thinking_blocks : Value → Result (List Value)
  normalize_thinking_blocks v = coerce_blocks v >>? collect_from thinking_content

  -- one block of _normalize_tool_result_content
  unfoldable pub result_content : Value → Result (List Value)
  result_content (text s) = ok (text_content s ∷ [])
  result_content (dict m) =
      let block_type = get_field_or "type" null m in
      if is_text "text" block_type
      then ok (text_content (text_at "text" m) ∷ [])
      else if is_text "json" block_type
      then ok (object (("json", get_field_or "json" (object []) m) ∷ []) ∷ [])
      else raised (
          invalid_content (
            str_append "Unsupported tool result block type '"
              (str_append (str repr block_type) "'.")))
  result_content v = raised (invalid_content "Unsupported tool result content block.")

  -- None and a text are what `coerce_blocks` makes of them
  unfoldable pub normalize_tool_result_content : Value → Result (List Value)
  normalize_tool_result_content v = coerce_blocks v >>? collect_from result_content

  abbrev tool_use_content : Fields → Value
  tool_use_content m = object (
      (
        "toolUse",
        object (
            ("toolUseId", text (text_at "id" m))
            ∷ ("name", text (text_at "name" m))
            ∷ ("input", get_field_or "input" (object []) m)
            ∷ []),
      )
      ∷ [])

  abbrev tool_result_content : Fields → List Value → Value
  tool_result_content m content = object (
      (
        "toolResult",
        object (
            ("toolUseId", text (text_at "tool_use_id" m))
            ∷ (
              "status",
              text (if truthy (get_field_or "is_error" null m) then "error" else "success"),
            )
            ∷ ("content", array content)
            ∷ []),
      )
      ∷ [])

  abbrev passed_on : String → Fields → Value
  passed_on k m = object ((k, dict (without_type m)) ∷ [])

  -- one block of _normalize_content_blocks, for the role of its message
  unfoldable pub block_content : String → Value → Result (List Value)
  block_content role (text s) = ok (text_content s ∷ [])
  block_content role (dict m) =
      let block_type = get_field_or "type" null m in
      if is_text "text" block_type
      then ok (text_content (text_at "text" m) ∷ [])
      else if is_text "tool_use" block_type && str_eq role "assistant"
      then ok (tool_use_content m ∷ [])
      else if is_text "tool_result" block_type && str_eq role "user"
      then normalize_tool_result_content (get_field_or "content" null m)
        >>? (λ content. ok (tool_result_content m content ∷ []))
      else if is_unhashable block_type
      then raised (other "TypeError")
      else if is_text "image" block_type
      then ok (passed_on "image" m ∷ [])
      else if is_text "document" block_type
      then ok (passed_on "document" m ∷ [])
      else raised (
          invalid_content
            (str_append "Unsupported content block type '" (str_append (str repr block_type) "'.")))
  block_content role v = raised (invalid_content "Unsupported content block.")

  unfoldable pub leading_thinking : String → Value → Result (List Value)
  leading_thinking role thinking =
      if str_eq role "assistant" && truthy thinking
      then normalize_thinking_blocks thinking
      else ok []

  unfoldable pub normalize_content_blocks : Value → String → Value → Result (List Value)
  normalize_content_blocks content role thinking = coerce_blocks content >>? λ blocks.
      leading_thinking role thinking >>? λ first.
      collect_from (block_content role) blocks >>? λ rest. ok (first ++ rest)

  unfoldable pub message_of : Bool → String → Fields → Result (List Value)
  message_of include_thinking role m =
      if not (str_eq role "user" || str_eq role "assistant")
      then raised (
          request_build "invalid_role"
            (str_append "Unsupported message role '" (str_append role "'.")))
      else (normalize_content_blocks (get_field_or "content" null m) role
            (if include_thinking then get_field_or "thinking_blocks" null m else null)
          >>? λ content. ok (object (("role", text role) ∷ ("content", array content) ∷ []) ∷ []))

  unfoldable pub normalize_message : Bool → Value → Result (List Value)
  normalize_message include_thinking (dict m) = message_of include_thinking (text_at "role" m) m
  normalize_message include_thinking v = raised (invalid_content "Each message must be an object.")

  -- _normalize_messages, of a list
  unfoldable pub normalize_messages : Bool → List Value → Result (List Value)
  normalize_messages include_thinking messages =
      collect_from (normalize_message include_thinking) messages

  unfoldable pub choice_of : Value → Value
  choice_of (dict m) =
      let choice_type = get_field_or "type" null m in
      if is_text "tool" choice_type
      then object (("tool", object (("name", text (text_at "name" m)) ∷ [])) ∷ [])
      else if is_text "any" choice_type
      then object (("any", object []) ∷ [])
      else auto_choice
  choice_of v = auto_choice

  unfoldable pub map_tool_choice : Value → Bool → Option Value
  map_tool_choice tool_choice reasoning_enabled =
      if is_none tool_choice
      then none
      else if reasoning_enabled
      then some auto_choice
      else some (choice_of tool_choice)
