-- ===== src/Tests/Kept.antt =====
-- api/proxy_router.py: what is recorded of what Bedrock answers.
use claude_code_proxy.Prelude.{false, none, some, [], ◌∷◌, ◌≡◌, ◌⊎◌, refl}
use claude_code_proxy.Prelude.Int.{pos}
use claude_code_proxy.Json.{Value, null, text, int, array, object}
use claude_code_proxy.Exec.{ok}
use claude_code_proxy.Audit.Records.{SuccessKept}
use claude_code_proxy.Converse.Stream.{
  iter_sse_events, flush, flush_pending_stop, item_at, sent_reason,
}
use claude_code_proxy.Converse.Response.{
  usage_dict, add_block, add_blocks, count_of, fields_of, items_of, map_stop_reason,
  normalize_usage, parse_converse_response, usage_of_fields,
}
use claude_code_proxy.Router.{message}
use claude_code_proxy.Router.Messages.{call_bedrock, answer, audit_success}
use claude_code_proxy.Router.CreateMessage.{stream_with_audit}
use claude_code_proxy.Router.Recorded.{
  call_bedrock-SuccessKept, stream_with_audit-IsStreamed, IsStreamed, IsBroken,
}
use claude_code_proxy.Router.Unlimited.{open_decision}
use claude_code_proxy.Tests.Fixtures.{alice, whole}
use claude_code_proxy.Tests.Router.{shown, World, logger, dependencies, start}
use claude_code_proxy.Tests.Served.{asked, context}
use claude_code_proxy.Auth.{restore_trusted_request_context}
use claude_code_proxy.Audit.{record_success, usage_event, user_of}
use claude_code_proxy.Converse.{is_supported}
use claude_code_proxy.Tests.Recorded.{sent, stream_reply, after_call}

abbrev after_stream : World
after_stream = record after_call { usages = "u1" ∷ []; audits = "auth_success" ∷ [] }

streamed :
    stream_with_audit shown whole (dependencies alice) stream_reply after_call
    ≡ (([], ok tt), after_stream)
unfolding stream_with_audit audit_success fields_of usage_dict record_success user_of
    restore_trusted_request_context usage_event count_of iter_sse_events flush_pending_stop
    sent_reason flush
streamed = refl

stream_with_audit-IsStreamed_example :
    IsStreamed shown whole
      (dependencies alice)
      logger
      refl
      stream_reply
      after_call
      ([], ok tt)
      after_stream
    ⊎ IsBroken shown whole
        (dependencies alice)
        logger
        refl
        stream_reply
        after_call
        ([], ok tt)
        after_stream
stream_with_audit-IsStreamed_example =
    stream_with_audit-IsStreamed shown whole (dependencies alice) logger refl stream_reply
      after_call after_stream ([], ok tt) streamed

abbrev said : Value
said = object (
    ("id", text "msg_bedrock")
    ∷ ("type", text "message")
    ∷ ("role", text "assistant")
    ∷ ("model", text "claude")
    ∷ ("content", array (object (("type", text "text") ∷ ("text", text "hi") ∷ []) ∷ []))
    ∷ ("stop_reason", text "end_turn")
    ∷ ("stop_sequence", null)
    ∷ (
      "usage",
      object (
          ("input_tokens", int (pos 0))
          ∷ ("output_tokens", int (pos 0))
          ∷ ("total_tokens", int (pos 0))
          ∷ ("cache_write_input_tokens", int (pos 0))
          ∷ ("cache_read_input_tokens", int (pos 0))
          ∷ ("cache_details", null)
          ∷ []),
    )
    ∷ [])

abbrev after_message : World
after_message = record start { usages = "u1" ∷ []; audits = "auth_success" ∷ []; calls = 1 }

answered_message :
    call_bedrock shown whole
      (dependencies alice)
      (asked alice false)
      (open_decision alice)
      none
      (sent false)
      start
    ≡ (ok (message said), after_message)
unfolding call_bedrock answer parse_converse_response fields_of items_of add_blocks add_block
    map_stop_reason is_supported normalize_usage usage_of_fields count_of item_at audit_success
    usage_dict record_success user_of restore_trusted_request_context usage_event
answered_message = refl

call_bedrock-SuccessKept_example :
    SuccessKept logger
      (context alice)
      "r1"
      "claude"
      (some "sonnet-v1")
      (open_decision alice)
      after_message
call_bedrock-SuccessKept_example =
    call_bedrock-SuccessKept shown whole (dependencies alice) logger refl (asked alice false)
      (open_decision alice) none (sent false) start after_message said answered_message
