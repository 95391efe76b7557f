-- ===== src/Converse/Stream/Thinking.antt =====
-- The thinking that the decoder collects: whatever the events, the two records of it agree.
use claude_code_proxy.Prelude.{
  ℕ, zero, suc, ◌<◌, String, Bool, true, false, Option, none, some, List, [], ◌∷◌, length, ◌≡◌,
  refl, sym, ap, ◌∙◌, arith, In,
}
use claude_code_proxy.Prelude.Int.{ℤ}
use claude_code_proxy.Json.{Value, null, text, object, Fields}
use claude_code_proxy.Exec.{Result, ok, raised}
use claude_code_proxy.Converse.Response.{normalize_usage}
use claude_code_proxy.Converse.Stream.{
  Decoder, item_at, block_index, get_or, text_of, new_decoder, Frame, extend, set_thinking,
  set_pending, set_usage, add_thinking, add_thinking_to, position_of, start_text, start_reasoning,
  start_tool, start_other, normalize_content_block_start, delta_reasoning, delta_tool, delta_other,
  normalize_content_block_delta, flush, flush_pending_stop, sent_reason, on_message_start,
  on_block_start, on_block_delta, on_block_stop, on_message_stop, on_metadata, on_event, Event,
  event_of, Run, iter_sse_events, last_frames, next_frames, ends_stream, message_start,
  content_block_start, content_block_delta, content_block_stop, message_stop, metadata, exception,
  ignored,
}
use claude_code_proxy.Converse.Stream.Invariant.{
  IsWellFormed, Preserves, pure-Preserves, set_block_type-Preserves, set_pending-Preserves,
  set_usage-Preserves, open_thinking-Preserves, add_thinking-Preserves, bind-Preserves,
  then-Preserves,
}

start_text-Preserves : (i : ℤ) → Preserves (start_text i)
unfolding start_text
start_text-Preserves i =
    bind-Preserves _ _ (set_block_type-Preserves i "text") λ _. pure-Preserves _

start_reasoning-Preserves : (i : ℤ) (b : Bool) → Preserves (start_reasoning i b)
unfolding start_reasoning
start_reasoning-Preserves i false = start_text-Preserves i
start_reasoning-Preserves i true =
    bind-Preserves _ _ (set_block_type-Preserves i "thinking")
      λ _. bind-Preserves _ _ (open_thinking-Preserves i) λ _. pure-Preserves _

start_tool-Preserves : (i : ℤ) (v : Value) (b : Bool) → Preserves (start_tool i v b)
unfolding start_tool
start_tool-Preserves i v false = then-Preserves _ _ (start_reasoning-Preserves i)
start_tool-Preserves i v true = bind-Preserves _ _ (set_block_type-Preserves i "tool_use") λ _.
    then-Preserves (item_at "toolUse" v) _ λ u.
      then-Preserves (get_or "toolUseId" null u) _
        λ _. then-Preserves (get_or "name" null u) _ λ _. pure-Preserves _

start-Preserves : (i : ℤ) (v : Value) → Preserves (normalize_content_block_start i v)
unfolding normalize_content_block_start start_other
start-Preserves i v = then-Preserves _ _ other
  where
    other : (b : Bool) → Preserves (start_other i v b)
    other true = start_text-Preserves i
    other false = then-Preserves _ _ (start_tool-Preserves i v)

delta_reasoning-Preserves : (i : ℤ) (v : Value) (b : Bool) → Preserves (delta_reasoning i v b)
unfolding delta_reasoning position_of
delta_reasoning-Preserves i v false = pure-Preserves _
delta_reasoning-Preserves i v true = then-Preserves (item_at "reasoningContent" v) _ λ c.
    then-Preserves (get_or "text" (text "") c) _ λ x.
      bind-Preserves (position_of i) _ (record { run = λ d w. w })
        λ p. then-Preserves (text_of x) _ λ t.
          bind-Preserves (add_thinking p t) _ (add_thinking-Preserves p t) λ _. pure-Preserves _

delta_tool-Preserves : (i : ℤ) (v : Value) (b : Bool) → Preserves (delta_tool i v b)
unfolding delta_tool
delta_tool-Preserves i v true =
    then-Preserves (item_at "toolUse" v) _
      λ u. then-Preserves (get_or "input" (text "") u) _ λ _. pure-Preserves _
delta_tool-Preserves i v false = then-Preserves _ _ (delta_reasoning-Preserves i v)

delta-Preserves : (i : ℤ) (v : Value) → Preserves (normalize_content_block_delta i v)
unfolding normalize_content_block_delta delta_other
delta-Preserves i v = then-Preserves _ _ other
  where
    other : (b : Bool) → Preserves (delta_other i v b)
    other true = then-Preserves (item_at "text" v) _ λ _. pure-Preserves _
    other false = then-Preserves _ _ (delta_tool-Preserves i v)

flush-Preserves : Preserves flush_pending_stop
unfolding flush_pending_stop flush set_pending
flush-Preserves = record {
  run = λ d. (then-Preserves (sent_reason d.pending_stop_reason) flush sent).run d;
}
  where
    sent : (o : Option String) → Preserves (flush o)
    sent none = record { run = λ d w. w }
    sent (some r) = record { run = λ d w. (set_pending-Preserves null).run d w }

on_event-Preserves : (repr : Value → String) (e : Event) → Preserves (on_event repr e)
unfolding on_event on_message_start on_block_start on_block_delta on_block_stop on_message_stop
    on_metadata
on_event-Preserves repr (message_start v) = record { run = λ d w. w }
on_event-Preserves repr (content_block_start v) = then-Preserves (block_index v) _ λ i.
    then-Preserves (get_or "start" (object []) v) _ λ s.
      bind-Preserves (normalize_content_block_start i s) _ (start-Preserves i s)
        λ _. pure-Preserves _
on_event-Preserves repr (content_block_delta v) = then-Preserves (block_index v) _ λ i.
    then-Preserves (get_or "delta" (object []) v) _ λ s.
      bind-Preserves (normalize_content_block_delta i s) _ (delta-Preserves i s)
        λ _. pure-Preserves _
on_event-Preserves repr (content_block_stop v) =
    then-Preserves (block_index v) _ λ i. pure-Preserves _
on_event-Preserves repr (message_stop v) =
    then-Preserves (get_or "stopReason" null v) _
      λ r. bind-Preserves (set_pending r) _ (set_pending-Preserves r) λ _. pure-Preserves _
on_event-Preserves repr (metadata v) = then-Preserves (get_or "usage" null v) _ λ x.
    then-Preserves (normalize_usage x) _
      λ u. bind-Preserves (set_usage u) _ (set_usage-Preserves u) λ _. flush-Preserves
on_event-Preserves repr (exception v) = pure-Preserves _
on_event-Preserves repr ignored = pure-Preserves _

pub new_decoder-IsWellFormed : (model : Value) → IsWellFormed (new_decoder model)
new_decoder-IsWellFormed model = record { agree = refl; in_range = λ i p h. nowhere h }
  where
    nowhere : {i : ℤ} {p : ℕ} → In {A = ℤ × ℕ} (i, p) [] → p < 0
    nowhere h = elim h [ ]

last_preserves :
    (r : Result (List Frame) × Decoder) → IsWellFormed r.1 → IsWellFormed (last_frames r).decoder
last_preserves (ok fs, d) w = w
last_preserves (raised e, d) w = w

next_preserves :
    (b : Bool) (r : Result (List Frame) × Decoder) (k : Decoder → Run)
    → IsWellFormed r.1
    → ((d : Decoder) → IsWellFormed d → IsWellFormed (k d).decoder)
    → IsWellFormed (next_frames b r k).decoder
next_preserves true r k w h = last_preserves r w
next_preserves false (ok fs, d) k w h = h d w
next_preserves false (raised x, d) k w h = w

-- Whatever events the stream has, and however it ends, the decoder that was well-formed before is
-- well-formed afterwards: its thinking blocks and its reasoning hold the same texts, and each
-- position of a block is one of them.
pub iter_sse_events-IsWellFormed :
    (repr : Value → String) (events : List (Result Fields)) (d : Decoder)
    → IsWellFormed d
    → IsWellFormed (iter_sse_events repr events d).decoder
unfolding iter_sse_events
iter_sse_events-IsWellFormed repr [] d w =
    last_preserves (flush_pending_stop d) (flush-Preserves.run d w)
iter_sse_events-IsWellFormed repr (raised x ∷ events) d w = w
iter_sse_events-IsWellFormed repr (ok event ∷ events) d w =
    next_preserves (ends_stream (event_of event)) (on_event repr (event_of event) d) _
      ((on_event-Preserves repr (event_of event)).run d w)
      (λ d' w'. iter_sse_events-IsWellFormed repr events d' w')

extend-in_range :
    (p : ℕ) (t : String) (xs : List String)
    → p < length xs
    → (ys : List String) × (extend p t xs ≡ some ys)
unfolding extend
extend-in_range p t [] h = absurd (omega arith)
extend-in_range zero t (x ∷ xs) h = (_, refl)
extend-in_range (suc p) t (x ∷ xs) h =
    let (ys, e) = extend-in_range p t xs (omega arith) in (x ∷ ys, (rw e refl))

-- In a well-formed decoder, adding thinking to the block of any known index raises nothing.
pub add_thinking-returns :
    (d : Decoder) (i : ℤ) (p : ℕ) (t : String)
    → IsWellFormed d
    → In (i, p) d.thinking_block_positions
    → (d' : Decoder) × (add_thinking p t d ≡ (ok tt, d'))
unfolding add_thinking add_thinking_to set_thinking
add_thinking-returns d i p t w h =
    let (ys, e) = extend-in_range p t d.thinking_blocks (w.in_range i p h) in
    both (extend p t d.thinking_blocks) (extend p t d.provider_reasoning) ys e
      (ap (extend p t) (sym w.agree) ∙ e)
  where
    both :
        (o o' : Option (List String)) (ys : List String)
        → o ≡ some ys
        → o' ≡ some ys
        → (d' : Decoder) × (add_thinking_to o o' d ≡ (ok tt, d'))
    both none o' ys e e' = cc e
    both (some xs) none ys e e' = cc e'
    both (some xs) (some zs) ys e e' = ((set_thinking xs zs d).1, refl)
