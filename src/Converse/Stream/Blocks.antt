-- ===== src/Converse/Stream/Blocks.antt =====
-- proxy/bedrock_converse/stream_decoder.py: the start of a content block and its deltas.
use claude_code_proxy.Prelude.{ℕ, String, Bool, true, false, Option, some, List}
use claude_code_proxy.Prelude.Int.{ℤ}
use claude_code_proxy.Json.{Value, null, text}
use claude_code_proxy.Json.Convert.{or_key_error}
use claude_code_proxy.Exec.{Exec, Result, ok, raised, other, ◌>>=◌, ◌>>◌, pure, raise, lift}
use claude_code_proxy.Converse.Stream.State.{
  Decoder, set_block_type, open_thinking, set_thinking, extend, at, member, item_at, get_or,
  text_block, tool_block, delta_of,
}

-- `self.thinking_blocks[p]["thinking"] += t`, then the same for the reasoning
unfoldable pub add_thinking_to :
    Option (List String) → Option (List String) → Exec Decoder (Unit {0})
add_thinking_to (some blocks) (some reasoning) = set_thinking blocks reasoning
add_thinking_to _ _ = raise (other "IndexError")

unfoldable pub add_thinking : ℕ → String → Exec Decoder (Unit {0})
add_thinking p t d =
    add_thinking_to (extend p t d.thinking_blocks) (extend p t d.provider_reasoning) d

unfoldable pub position_of : ℤ → Exec Decoder ℕ
position_of i d = (or_key_error (at i d.thinking_block_positions), d)

-- only a text can be added to a text
unfoldable pub text_of : Value → Result String
text_of (text t) = ok t
text_of v = raised (other "TypeError")

-- _normalize_content_block_start
unfoldable pub start_text : ℤ → Exec Decoder Value
start_text i = set_block_type i "text" >> pure text_block

unfoldable pub start_reasoning : ℤ → Bool → Exec Decoder Value
start_reasoning i false = start_text i
start_reasoning i true = do
  set_block_type i "thinking"
  open_thinking i
  pure (delta_of "thinking" "thinking" (text ""))

unfoldable pub start_tool : ℤ → Value → Bool → Exec Decoder Value
start_tool i start false = do
  reasoning ← lift (member "reasoningContent" start)
  start_reasoning i reasoning
start_tool i start true = do
  set_block_type i "tool_use"
  tool_use ← lift (item_at "toolUse" start)
  id_ ← lift (get_or "toolUseId" null tool_use)
  name ← lift (get_or "name" null tool_use)
  pure (tool_block id_ name)

unfoldable pub start_other : ℤ → Value → Bool → Exec Decoder Value
start_other i start true = start_text i
start_other i start false = do tool ← lift (member "toolUse" start); start_tool i start tool

unfoldable pub normalize_content_block_start : ℤ → Value → Exec Decoder Value
normalize_content_block_start i start = do
  is_text_block ← lift (member "text" start)
  start_other i start is_text_block

-- _normalize_content_block_delta
unfoldable pub delta_reasoning : ℤ → Value → Bool → Exec Decoder Value
delta_reasoning i delta false = pure (delta_of "text_delta" "text" (text ""))
delta_reasoning i delta true = do
  content ← lift (item_at "reasoningContent" delta)
  reasoning_text ← lift (get_or "text" (text "") content)
  p ← position_of i
  t ← lift (text_of reasoning_text)
  add_thinking p t
  pure (delta_of "thinking_delta" "thinking" (text t))

unfoldable pub delta_tool : ℤ → Value → Bool → Exec Decoder Value
delta_tool i delta true = do
  tool_use ← lift (item_at "toolUse" delta)
  input ← lift (get_or "input" (text "") tool_use)
  pure (delta_of "input_json_delta" "partial_json" input)
delta_tool i delta false = do
  reasoning ← lift (member "reasoningContent" delta)
  delta_reasoning i delta reasoning

unfoldable pub delta_other : ℤ → Value → Bool → Exec Decoder Value
delta_other i delta true = do t ← lift (item_at "text" delta); pure (delta_of "text_delta" "text" t)
delta_other i delta false = do tool ← lift (member "toolUse" delta); delta_tool i delta tool

unfoldable pub normalize_content_block_delta : ℤ → Value → Exec Decoder Value
normalize_content_block_delta i delta = do
  is_text_delta ← lift (member "text" delta)
  delta_other i delta is_text_delta
