-- ===== src/Tests/Request.antt =====
-- proxy/bedrock_converse/request_builder.py over a short conversation.
use claude_code_proxy.Prelude.{String, true, some, List, [], ◌∷◌, length, ◌≡◌, refl}
use claude_code_proxy.Prelude.Int.{pos}
use claude_code_proxy.Json.{Value, null, int, text, array, object}
use claude_code_proxy.Json.Convert.{int_of_value}
use claude_code_proxy.Exec.{ok, raised, request_build}
use claude_code_proxy.Converse.Request.{
  normalize_messages, collect_from, normalize_message, message_of, normalize_content_blocks,
  coerce_blocks, leading_thinking, block_content,
}
use claude_code_proxy.Converse.Request.Messages.{AllMessages, normalize_messages-AllMessages}
use claude_code_proxy.Converse.Request.Reasoning.{normalize_reasoning_request, reasoning_budget}

abbrev shown : Value → String
shown v = "?"

abbrev small_budget : Value
small_budget = object (("budget_tokens", int (pos 5)) ∷ [])

raised_to_minimum : normalize_reasoning_request true small_budget null ≡ ok (some (pos 1024))
unfolding normalize_reasoning_request reasoning_budget int_of_value
raised_to_minimum = refl

abbrev said : String → Value → Value
said role content = object (("role", text role) ∷ ("content", content) ∷ [])

abbrev talk : List Value
talk = said "user" (text "hi") ∷ said "assistant" (array (text "hello" ∷ [])) ∷ []

abbrev sent : List Value
sent =
    said "user" (array (object (("text", text "hi") ∷ []) ∷ []))
    ∷ said "assistant" (array (object (("text", text "hello") ∷ []) ∷ []))
    ∷ []

talk-sent : normalize_messages shown true talk ≡ ok sent
unfolding normalize_messages collect_from normalize_message message_of normalize_content_blocks
    coerce_blocks leading_thinking block_content
talk-sent = refl

system_refused :
    normalize_messages shown true (said "system" (text "hi") ∷ [])
    ≡ raised (request_build "invalid_role" "Unsupported message role 'system'.")
unfolding normalize_messages collect_from normalize_message message_of
system_refused = refl

normalize_messages-AllMessages_example : (length sent ≡ length talk) × AllMessages sent
normalize_messages-AllMessages_example =
    normalize_messages-AllMessages shown true talk sent talk-sent
