-- ===== src/Converse/Request/System.antt =====
-- proxy/bedrock_converse/request_builder.py: the blocks of the system prompt.
use claude_code_proxy.Prelude.{String, List, [], ◌∷◌, if◌then◌else◌}
use claude_code_proxy.Json.{Value, null, text, list, dict, get_field_or, is_text, to_list, str}
use claude_code_proxy.Exec.{Result, ok, raised}
use claude_code_proxy.Converse.Request.{invalid_content, collect_from, text_content}

module _ (repr : Value → String) where
  unfoldable pub system_content : Value → Result (List Value)
  system_content (text s) = ok (text_content s ∷ [])
  system_content (dict m) =
      if is_text "text" (get_field_or "type" null m)
      then ok (text_content (str repr (get_field_or "text" (text "") m)) ∷ [])
      else ok (dict m ∷ [])
  system_content v = raised (invalid_content "Unsupported system block.")

  -- _normalize_system_blocks
  unfoldable pub normalize_system_blocks : Value → Result (List Value)
  normalize_system_blocks null = ok []
  normalize_system_blocks (text s) = ok (text_content s ∷ [])
  normalize_system_blocks (list vs) = collect_from system_content (to_list vs)
  normalize_system_blocks v = raised (invalid_content "Unsupported system prompt format.")
