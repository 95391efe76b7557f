-- ===== src/Converse/Stream/State.antt =====
-- proxy/bedrock_converse/stream_decoder.py: the state of the decoder and the changes to it.
-- The texts of `thinking_blocks` and of `provider_reasoning` stand for their dicts, which differ in
-- nothing else.
use Prim.Native.String.{◌++◌ as str_append}
use claude_code_proxy.Prelude.{
  ℕ, zero, suc, String, Bool, false, Option, none, some, List, [], ◌∷◌, ◌++◌, length, any, ◌==◌,
  if◌then◌else◌,
}
use claude_code_proxy.Prelude.Int.{ℤ, pos, negsuc}
use claude_code_proxy.Json.{
  Value, null, text, list, dict, object, get_field, get_field_or, has_field, is_text, to_list,
}
use claude_code_proxy.Json.Convert.{or_key_error}
use claude_code_proxy.Exec.{Exec, Result, ok, raised, other, ◌>>?◌}
use claude_code_proxy.Text.{contains}
use claude_code_proxy.Converse.Response.{Usage, fields_of}

abbrev pub Frame : Type 0
Frame = String × Value

-- ConverseStreamDecoder with its StreamingUsageCollector, whose `_usage` is `usage`
pub record Decoder : Type 0 where
  pub model : Value
  pub message_id : String
  pub usage : Usage
  pub thinking_blocks : List String
  pub provider_reasoning : List String
  pub block_types : List (ℤ × String)
  pub thinking_block_positions : List (ℤ × ℕ)
  pub pending_stop_reason : Value

abbrev pub no_usage : Usage
no_usage = record {
  input_tokens = pos 0;
  output_tokens = pos 0;
  total_tokens = pos 0;
  cache_write_input_tokens = pos 0;
  cache_read_input_tokens = pos 0;
  cache_details = null;
}

abbrev pub new_decoder : Value → Decoder
new_decoder model = record {
  model = model;
  message_id = "msg_bedrock_stream";
  usage = no_usage;
  thinking_blocks = [];
  provider_reasoning = [];
  block_types = [];
  thinking_block_positions = [];
  pending_stop_reason = null;
}

abbrev pub eq_ℤ : ℤ → ℤ → Bool
eq_ℤ (pos m) (pos n) = m == n
eq_ℤ (negsuc m) (negsuc n) = m == n
eq_ℤ a b = false

-- a dict with whole numbers for keys: d[k] = v and d.get(k)
unfoldable pub put : {A : Type 0} → ℤ → A → List (ℤ × A) → List (ℤ × A)
put k v [] = (k, v) ∷ []
put k v ((j, w) ∷ m) = let rest = put k v m in if eq_ℤ j k then (k, v) ∷ m else (j, w) ∷ rest

unfoldable pub at : {A : Type 0} → ℤ → List (ℤ × A) → Option A
at k [] = none
at k ((j, w) ∷ m) = let rest = at k m in if eq_ℤ j k then some w else rest

-- xs[n] += t
unfoldable pub extend : ℕ → String → List String → Option (List String)
extend n t [] = none
extend zero t (x ∷ xs) = some (str_append x t ∷ xs)
extend (suc n) t (x ∷ xs) = elim (extend n t xs) [ none ↦ none | some ys ↦ some (x ∷ ys) ]

-- `"k" in v`
unfoldable pub member : String → Value → Result Bool
member k (dict m) = ok (has_field k m)
member k (list vs) = ok (any (is_text k) (to_list vs))
member k (text s) = ok (contains k s)
member k v = raised (other "TypeError")

-- v["k"]
unfoldable pub item_at : String → Value → Result Value
item_at k (dict m) = or_key_error (get_field k m)
item_at k v = raised (other "TypeError")

-- v.get("k", w)
unfoldable pub get_or : String → Value → Value → Result Value
get_or k w v = fields_of v >>? λ m. ok (get_field_or k w m)

abbrev pub text_block : Value
text_block = object (("type", text "text") ∷ ("text", text "") ∷ [])

abbrev pub tool_block : Value → Value → Value
tool_block id_ name =
    object (("type", text "tool_use") ∷ ("id", id_) ∷ ("name", name) ∷ ("input", object []) ∷ [])

abbrev pub delta_of : String → String → Value → Value
delta_of type_ k v = object (("type", text type_) ∷ (k, v) ∷ [])

unfoldable pub set_block_type : ℤ → String → Exec Decoder (Unit {0})
unfolding put
set_block_type i type_ d = (
  ok tt,
  record {
    model = d.model;
    message_id = d.message_id;
    usage = d.usage;
    thinking_blocks = d.thinking_blocks;
    provider_reasoning = d.provider_reasoning;
    block_types = put i type_ d.block_types;
    thinking_block_positions = d.thinking_block_positions;
    pending_stop_reason = d.pending_stop_reason;
  },
)

unfoldable pub open_thinking : ℤ → Exec Decoder (Unit {0})
open_thinking i d = (
  ok tt,
  record {
    model = d.model;
    message_id = d.message_id;
    usage = d.usage;
    thinking_blocks = d.thinking_blocks ++ ("" ∷ []);
    provider_reasoning = d.provider_reasoning ++ ("" ∷ []);
    block_types = d.block_types;
    thinking_block_positions = put i (length d.thinking_blocks) d.thinking_block_positions;
    pending_stop_reason = d.pending_stop_reason;
  },
)

unfoldable pub set_thinking : List String → List String → Exec Decoder (Unit {0})
set_thinking blocks reasoning d = (
  ok tt,
  record {
    model = d.model;
    message_id = d.message_id;
    usage = d.usage;
    thinking_blocks = blocks;
    provider_reasoning = reasoning;
    block_types = d.block_types;
    thinking_block_positions = d.thinking_block_positions;
    pending_stop_reason = d.pending_stop_reason;
  },
)

unfoldable pub set_pending : Value → Exec Decoder (Unit {0})
set_pending reason d = (
  ok tt,
  record {
    model = d.model;
    message_id = d.message_id;
    usage = d.usage;
    thinking_blocks = d.thinking_blocks;
    provider_reasoning = d.provider_reasoning;
    block_types = d.block_types;
    thinking_block_positions = d.thinking_block_positions;
    pending_stop_reason = reason;
  },
)

unfoldable pub set_usage : Usage → Exec Decoder (Unit {0})
set_usage u d = (
  ok tt,
  record {
    model = d.model;
    message_id = d.message_id;
    usage = u;
    thinking_blocks = d.thinking_blocks;
    provider_reasoning = d.provider_reasoning;
    block_types = d.block_types;
    thinking_block_positions = d.thinking_block_positions;
    pending_stop_reason = d.pending_stop_reason;
  },
)
