-- ===== src/Converse/Stream.antt =====
-- proxy/bedrock_converse/stream_decoder.py: the server-sent events that a stream of Bedrock becomes.
-- A frame is the name of its event and the payload that `json.dumps` prints.
mod State
mod Blocks
pub mod Invariant
pub mod Thinking
unfoldable pub use State.*
unfoldable pub use Blocks.*
use claude_code_proxy.Prelude.{
  ℕ, zero, suc, String, Bool, true, false, Option, none, some, List, [], ◌∷◌, ◌++◌, length, any,
  str_eq, ◌==◌, if◌then◌else◌,
}
use claude_code_proxy.Prelude.Int.{ℤ, pos, negsuc}
use claude_code_proxy.Json.{
  Value, null, bool, int, real, text, list, dict, Fields, array, object, get_field, get_field_or,
  has_field, is_text, to_list, str,
}
use claude_code_proxy.Json.Convert.{int_of_value, or_key_error}
use claude_code_proxy.Exec.{
  Exec, Exn, Result, ok, raised, other, ◌>>=◌, ◌>>◌, ◌>>?◌, pure, raise, lift,
}
use claude_code_proxy.Text.{contains}
use claude_code_proxy.Converse.{is_supported}
use claude_code_proxy.Converse.Response.{Usage, usage_dict, normalize_usage, fields_of}

-- The reason that `_flush_pending_stop` sends: what is not a text is not supported, and a list or a
-- dict cannot be looked for in a set.
unfoldable pub sent_reason : Value → Result (Option String)
sent_reason null = ok none
sent_reason (text r) = ok (some (if is_supported r then r else "end_turn"))
sent_reason (list vs) = raised (other "TypeError")
sent_reason (dict m) = raised (other "TypeError")
sent_reason v = ok (some "end_turn")

unfoldable pub stop_frames : String → Usage → List Frame
stop_frames reason usage =
    (
      "message_delta",
      object (
          ("type", text "message_delta")
          ∷ ("delta", object (("stop_reason", text reason) ∷ ("stop_sequence", null) ∷ []))
          ∷ ("usage", usage_dict usage)
          ∷ []),
    )
    ∷ ("message_stop", object (("type", text "message_stop") ∷ []))
    ∷ []

unfoldable pub flush : Option String → Exec Decoder (List Frame)
flush none d = (ok [], d)
flush (some reason) d = (set_pending null >> pure (stop_frames reason d.usage)) d

unfoldable pub flush_pending_stop : Exec Decoder (List Frame)
flush_pending_stop d = (lift (sent_reason d.pending_stop_reason) >>= flush) d

unfoldable pub block_index : Value → Result ℤ
block_index block = item_at "contentBlockIndex" block >>? int_of_value

unfoldable pub on_message_start : Value → Exec Decoder (List Frame)
on_message_start start d = (
  get_or "role" (text "assistant") start >>? λ role. ok (
      (
        "message_start",
        object (
            ("type", text "message_start")
            ∷ (
              "message",
              object (
                  ("id", text d.message_id)
                  ∷ ("type", text "message")
                  ∷ ("role", role)
                  ∷ ("model", d.model)
                  ∷ ("content", array [])
                  ∷ []),
            )
            ∷ []),
      )
      ∷ []),
  d,
)

unfoldable pub on_block_start : Value → Exec Decoder (List Frame)
on_block_start block = do
  i ← lift (block_index block)
  start ← lift (get_or "start" (object []) block)
  content_block ← normalize_content_block_start i start
  pure (
      (
        "content_block_start",
        object (
            ("type", text "content_block_start")
            ∷ ("index", int i)
            ∷ ("content_block", content_block)
            ∷ []),
      )
      ∷ [])

unfoldable pub on_block_delta : Value → Exec Decoder (List Frame)
on_block_delta block = do
  i ← lift (block_index block)
  delta ← lift (get_or "delta" (object []) block)
  payload ← normalize_content_block_delta i delta
  pure (
      (
        "content_block_delta",
        object (("type", text "content_block_delta") ∷ ("index", int i) ∷ ("delta", payload) ∷ []),
      )
      ∷ [])

unfoldable pub on_block_stop : Value → Exec Decoder (List Frame)
on_block_stop block = do
  i ← lift (block_index block)
  pure (
      ("content_block_stop", object (("type", text "content_block_stop") ∷ ("index", int i) ∷ []))
      ∷ [])

unfoldable pub on_message_stop : Value → Exec Decoder (List Frame)
on_message_stop stop = do reason ← lift (get_or "stopReason" null stop); set_pending reason; pure []

unfoldable pub on_metadata : Value → Exec Decoder (List Frame)
on_metadata metadata = do
  v ← lift (get_or "usage" null metadata)
  usage ← lift (normalize_usage v)
  set_usage usage
  flush_pending_stop

abbrev error_frame : String → Frame
error_frame message = (
  "error",
  object (
      ("type", text "error")
      ∷ ("error", object (("type", text "api_error") ∷ ("message", text message) ∷ []))
      ∷ []),
)

-- What one event is, by the first of the members that the loop asks for.
pub data Event : Type 0 where
  message_start content_block_start content_block_delta : Value → Event
  content_block_stop message_stop metadata exception : Value → Event
  ignored : Event

abbrev or_else : Option Value → (Value → Event) → Event → Event
or_else (some v) f e = f v
or_else none f e = e

unfoldable pub event_of : Fields → Event
event_of event = or_else (get_field "messageStart" event) message_start (
    or_else (get_field "contentBlockStart" event) content_block_start (
      or_else (get_field "contentBlockDelta" event) content_block_delta (
        or_else (get_field "contentBlockStop" event) content_block_stop (
          or_else (get_field "messageStop" event) message_stop (
            or_else (get_field "metadata" event) metadata
              (or_else (get_field "exception" event) exception ignored))))))

-- The frames of an event, and the decoder after them.
unfoldable pub on_event : (Value → String) → Event → Exec Decoder (List Frame)
on_event repr (message_start v) = on_message_start v
on_event repr (content_block_start v) = on_block_start v
on_event repr (content_block_delta v) = on_block_delta v
on_event repr (content_block_stop v) = on_block_stop v
on_event repr (message_stop v) = on_message_stop v
on_event repr (metadata v) = on_metadata v
on_event repr (exception v) = pure (error_frame (str repr v) ∷ [])
on_event repr ignored = pure []

-- What a consumer of the generator has seen at its end, and how it ended.
pub record Run : Type 0 where
  pub frames : List Frame
  pub result : Result (Unit {0})
  pub decoder : Decoder

abbrev prepend : List Frame → Run → Run
prepend fs r = record { frames = fs ++ r.frames; result = r.result; decoder = r.decoder }

abbrev pub last_frames : Result (List Frame) × Decoder → Run
last_frames (ok fs, d) = record { frames = fs; result = ok tt; decoder = d }
last_frames (raised e, d) = record { frames = []; result = raised e; decoder = d }

-- An exception of the stream ends the generator without a flush.
abbrev pub ends_stream : Event → Bool
ends_stream (exception v) = true
ends_stream _ = false

abbrev pub next_frames : Bool → Result (List Frame) × Decoder → (Decoder → Run) → Run
next_frames true r k = last_frames r
next_frames false (raised x, d) k = last_frames (raised x, d)
next_frames false (ok fs, d) k = prepend fs (k d)

-- What the iteration over the raw stream gives: an event, or the exception that it raises.
unfoldable pub iter_sse_events : (Value → String) → List (Result Fields) → Decoder → Run
iter_sse_events repr [] d = last_frames (flush_pending_stop d)
iter_sse_events repr (raised x ∷ events) d = last_frames (raised x, d)
iter_sse_events repr (ok event ∷ events) d =
    next_frames (ends_stream (event_of event)) (on_event repr (event_of event) d)
      (λ d'. iter_sse_events repr events d')
