-- ===== src/Router/CreateMessage.antt =====
-- api/proxy_router.py: the handler of /v1/messages, and the stream that it answers with.
use claude_code_proxy.Prelude.{String, Option, none, some, List}
use claude_code_proxy.Json.{Value, null, get_field_or}
use claude_code_proxy.Exec.{Exec, Result, ok, raised, ◌>>=◌, ◌>>◌, pure, lift}
use claude_code_proxy.Domain.{AuthenticatedRequestContext}
use claude_code_proxy.Quota.{Floats}
use claude_code_proxy.Audit.{AuditServices}
use claude_code_proxy.Converse.Response.{fields_of, usage_dict}
use claude_code_proxy.Converse.Stream.{Frame, Run, iter_sse_events}
use claude_code_proxy.Observability.{resolve_request_id}
use claude_code_proxy.Router.{
  ProxyDependencies, Reply, StreamingReply, attempt, error_reply, or_failure, authenticate_request,
  audit_denial,
}
use claude_code_proxy.Router.Messages.{named, audit_success, serve}

-- `if audit_logger is not None`
abbrev pub when_audited :
    {W F : Type 0} → Option (AuditServices W F) → Exec W (Unit {0}) → Exec W (Unit {0})
when_audited none m = pure tt
when_audited (some logger) m = m

-- What the consumer of the stream has seen, once the `finally` has run.
abbrev pub finished :
    {W : Type 0} → Run → Result (Unit {0}) × W → (List Frame × Result (Unit {0})) × W
finished run (ok u, w) = ((run.frames, run.result), w)
finished run (raised e, w) = ((run.frames, raised e), w)

module _ {W T : Type 0} (repr : Value → String) (floats : Floats)
    (dependencies : ProxyDependencies W T (floats.F)) where
  -- `body.get` is asked only if there is a logger.
  unfoldable pub audit_unauthenticated : String → Value → Exec W (Unit {0})
  audit_unauthenticated rid body = when_audited dependencies.audit_logger (do
    m ← lift (fields_of body)
    audit_denial repr dependencies rid "authentication_failed" none
        (named repr (get_field_or "model" null m)) none none)

  unfoldable pub after_authentication :
      String → T → Value → Result AuthenticatedRequestContext → Exec W (Reply T (floats.F))
  after_authentication rid started_at body (raised error) = do
    audit_unauthenticated rid body
    pure (error_reply rid error)
  after_authentication rid started_at body (ok authenticated) = do
    served ← attempt (serve repr floats dependencies rid started_at body authenticated)
    pure (or_failure rid served)

  unfoldable pub create_message : Option String → Value → Exec W (Reply T (floats.F))
  create_message header body = do
    rid ← resolve_request_id dependencies.request_scope
    started_at ← dependencies.timer.perf_counter
    authenticated ← attempt (authenticate_request repr dependencies header rid)
    after_authentication rid started_at body authenticated

  unfoldable pub stream_with_audit :
      StreamingReply T (floats.F) → W → (List Frame × Result (Unit {0})) × W
  stream_with_audit reply w =
      let run = iter_sse_events repr reply.raw_stream reply.decoder in
      finished run (
        audit_success repr floats dependencies reply.authenticated reply.request_id
          reply.requested_model reply.resolved_model reply.policy_decision
          (usage_dict run.decoder.usage) reply.usage_snapshot reply.started_at w)
