-- ===== src/Converse.antt =====
-- proxy/bedrock_converse: between the messages of Anthropic's API and those of Bedrock Converse.
pub mod Response
pub mod Stream
pub mod Request
use claude_code_proxy.Prelude.{String, Bool, List, [], ◌∷◌, any, str_eq}

-- SUPPORTED_STOP_REASONS
abbrev pub supported_stop_reasons : List String
supported_stop_reasons = "end_turn" ∷ "max_tokens" ∷ "stop_sequence" ∷ "tool_use" ∷ []

unfoldable pub is_supported : String → Bool
is_supported reason = any (str_eq reason) supported_stop_reasons
