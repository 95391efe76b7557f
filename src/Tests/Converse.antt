-- ===== src/Tests/Converse.antt =====
-- proxy/bedrock_converse over a stream with one block of thinking.
use claude_code_proxy.Prelude.{ℕ, String, some, List, [], ◌∷◌, ◌≡◌, refl, In, here}
use claude_code_proxy.Prelude.Int.{ℤ, pos}
use claude_code_proxy.Json.{Value, null, int, text, object, Fields, fields}
use claude_code_proxy.Exec.{ok, Result, raised, other}
use claude_code_proxy.Converse.{is_supported}
use claude_code_proxy.Converse.Response.{map_stop_reason}
use claude_code_proxy.Converse.Stream.{Decoder, new_decoder, open_thinking, put, iter_sse_events}
use claude_code_proxy.Converse.Stream.Invariant.{IsWellFormed, open_thinking-IsWellFormed}
use claude_code_proxy.Converse.Stream.Thinking.{
  new_decoder-IsWellFormed, iter_sse_events-IsWellFormed,
}

abbrev shown : Value → String
shown v = "?"

refused :
    map_stop_reason (text "guardrail")
    ≡ ok (some "end_turn", ("raw_stop_reason", text "guardrail") ∷ [])
unfolding map_stop_reason is_supported
refused = refl

abbrev block_event : String → String → Value → Fields
block_event name k v =
    fields ((name, object (("contentBlockIndex", int (pos 0)) ∷ (k, v) ∷ [])) ∷ [])

abbrev events : List (Result Fields)
events =
    ok (block_event "contentBlockStart" "start" (object (("reasoningContent", object []) ∷ [])))
    ∷ ok (
        block_event "contentBlockDelta" "delta"
          (object (("reasoningContent", object (("text", text "hm") ∷ [])) ∷ [])))
    ∷ raised (other "EventStreamError")
    ∷ []

iter_sse_events-IsWellFormed_example :
    IsWellFormed (iter_sse_events shown events (new_decoder (text "claude"))).decoder
iter_sse_events-IsWellFormed_example =
    iter_sse_events-IsWellFormed shown events (new_decoder (text "claude"))
      (new_decoder-IsWellFormed (text "claude"))

abbrev thinking_decoder : Decoder
thinking_decoder = (open_thinking (pos 0) (new_decoder null)).1

thinking_decoder-IsWellFormed : IsWellFormed thinking_decoder
thinking_decoder-IsWellFormed =
    open_thinking-IsWellFormed (pos 0) (new_decoder null) (new_decoder-IsWellFormed null)

block_opened : In {A = ℤ × ℕ} (pos 0, 0) thinking_decoder.thinking_block_positions
unfolding open_thinking put
block_opened = here refl
