-- ===== src/Router/Recorded.antt =====
-- That what Bedrock answers is recorded with its usage.
use claude_code_proxy.Prelude.{
  String, Bool, true, false, Option, some, List, ◌≡◌, refl, sym, ap, ◌∙◌, ◌⊎◌, inl, inr, str_eq,
}
use claude_code_proxy.Json.{Value, Fields}
use claude_code_proxy.Exec.{Exn, Result, ok, raised, ◌>>=◌, pure, bind_ok, lift_bind_ok, returned}
use claude_code_proxy.Domain.{AuthenticatedRequestContext}
use claude_code_proxy.Policy.{PolicyDecision}
use claude_code_proxy.Quota.{Floats, UsageCostSnapshot}
use claude_code_proxy.Audit.{AuditServices}
use claude_code_proxy.Audit.Records.{SuccessKept, record_success-SuccessKept}
use claude_code_proxy.Converse.Response.{fields_of, usage_dict, parse_converse_response}
use claude_code_proxy.Converse.Stream.{Frame, Run, iter_sse_events, item_at}
use claude_code_proxy.Converse.Request.Build.{ConverseRequest}
use claude_code_proxy.Router.{ProxyDependencies, Reply, StreamingReply, message, streaming}
use claude_code_proxy.Router.Messages.{
  Admission, audit_success, answer, call_bedrock, gate, stream_reply,
}
use claude_code_proxy.Router.CreateMessage.{stream_with_audit, finished}

not_message : {T F : Type 0} {s : StreamingReply T F} {v : Value} → streaming s ≡ message v → ⊥
not_message h = cc h

module _ {W T : Type 0} (repr : Value → String) (floats : Floats)
    (d : ProxyDependencies W T (floats.F)) (logger : AuditServices W (floats.F))
    (e : d.audit_logger ≡ some logger) where
  audit_success-SuccessKept :
      (c : AuthenticatedRequestContext) (rid model : String) (resolved : Option String)
      (decision : PolicyDecision) (usage : Value) (snapshot : Option (UsageCostSnapshot (floats.F)))
      (started_at : T) (w w' : W)
      → audit_success repr floats d c rid model resolved decision usage snapshot started_at w
        ≡ (ok tt, w')
      → SuccessKept logger c rid model resolved decision w'
  unfolding audit_success
  audit_success-SuccessKept c rid model resolved decision usage snapshot started_at w w' h =
      let (now, w1, q1, h1) = bind_ok d.timer.perf_counter _ w w' tt (rw e at h) in
      let (used, q2, h2) = lift_bind_ok (fields_of usage) _ w1 w' tt h1 in
      record_success-SuccessKept logger c rid model resolved decision used snapshot
        (some (d.timer.milliseconds_between started_at now)) w1 w' h2

  answer-SuccessKept :
      (a : Admission T) (decision : PolicyDecision)
      (snapshot : Option (UsageCostSnapshot (floats.F))) (response : Fields) (w w' : W)
      (reply : Reply T (floats.F))
      → answer repr floats d a decision snapshot response w ≡ (ok reply, w')
      → SuccessKept logger a.authenticated a.request_id a.requested_model
          a.resolved_model.bedrock_model_id decision w'
  unfolding answer
  answer-SuccessKept a decision snapshot response w w' reply h =
      let (parsed, q1, h1) =
        lift_bind_ok (parse_converse_response response (some a.requested_model)) _ w w' reply h in
      let (usage, q2, h2) = lift_bind_ok (item_at "usage" parsed) _ w w' reply h1 in
      let (u, w1, q3, h3) =
        bind_ok
          (audit_success repr floats d a.authenticated a.request_id a.requested_model
            a.resolved_model.bedrock_model_id decision usage snapshot a.started_at)
          _ w w' reply h2 in
      audit_success-SuccessKept a.authenticated a.request_id a.requested_model
        a.resolved_model.bedrock_model_id decision usage snapshot a.started_at w w'
        (q3 ∙ ap (λ x. (ok tt, x)) (returned _ reply w1 w' h3).1)

  -- With an audit logger, a message from Bedrock is given to the client only after its usage record and its
  -- audit record were kept.
  pub call_bedrock-SuccessKept :
      (a : Admission T) (decision : PolicyDecision)
      (snapshot : Option (UsageCostSnapshot (floats.F))) (request : ConverseRequest) (w w' : W)
      (v : Value)
      → call_bedrock repr floats d a decision snapshot request w ≡ (ok (message v), w')
      → SuccessKept logger a.authenticated a.request_id a.requested_model
          a.resolved_model.bedrock_model_id decision w'
  unfolding call_bedrock
  call_bedrock-SuccessKept a decision snapshot request w w' v h =
      by_operation (str_eq request.operation "converse_stream") h
    where
      by_operation :
          (b : Bool)
          → gate b
              (d.bedrock_client.converse_stream request >>= λ raw.
                pure (streaming (stream_reply repr floats d a decision snapshot raw)))
              (d.bedrock_client.converse request >>= λ raw.
                answer repr floats d a decision snapshot raw)
              w
            ≡ (ok (message v), w')
          → SuccessKept logger a.authenticated a.request_id a.requested_model
              a.resolved_model.bedrock_model_id decision w'
      by_operation true h =
          let (raw, w1, q, h1) =
            bind_ok (d.bedrock_client.converse_stream request) _ w w' (message v) h in
          absurd (not_message (returned _ (message v) w1 w' h1).0)
      by_operation false h =
          let (raw, w1, q, h1) = bind_ok (d.bedrock_client.converse request) _ w w' (message v) h in
          answer-SuccessKept a decision snapshot raw w1 w' (message v) h1

  -- The records of a streamed reply, with the usage that its decoder ended with.
  abbrev pub audit_of_stream : StreamingReply T (floats.F) → W → Result (Unit {0}) × W
  audit_of_stream reply =
      audit_success repr floats d reply.authenticated reply.request_id reply.requested_model
        reply.resolved_model reply.policy_decision
        (usage_dict (iter_sse_events repr reply.raw_stream reply.decoder).decoder.usage)
        reply.usage_snapshot reply.started_at

  -- A stream whose records were kept: it gave what the decoder gives, and ended as the decoder ended.
  pub record IsStreamed (reply : StreamingReply T (floats.F)) (w : W)
      (out : List Frame × Result (Unit {0})) (w' : W) : Type 0 where
    pub complete : out ≡ (
      (iter_sse_events repr reply.raw_stream reply.decoder).frames,
      (iter_sse_events repr reply.raw_stream reply.decoder).result,
    )
    pub audited : audit_of_stream reply w ≡ (ok tt, w')
    pub kept :
        SuccessKept logger reply.authenticated reply.request_id reply.requested_model
          reply.resolved_model reply.policy_decision w'

  -- A stream whose records could not be kept: it gave the same frames, and ended with the exception that
  -- keeping them raised.
  pub record IsBroken (reply : StreamingReply T (floats.F)) (w : W)
      (out : List Frame × Result (Unit {0})) (w' : W) : Type 0 where
    pub error : Exn
    pub audited : audit_of_stream reply w ≡ (raised error, w')
    pub complete :
        out ≡ ((iter_sse_events repr reply.raw_stream reply.decoder).frames, raised error)

  -- With an audit logger, however a stream ends, also by an exception, the client has all its frames, and
  -- its usage record and its audit record are kept; unless keeping them raises, and then the stream ends with that
  -- exception.
  pub stream_with_audit-IsStreamed :
      (reply : StreamingReply T (floats.F)) (w w' : W) (out : List Frame × Result (Unit {0}))
      → stream_with_audit repr floats d reply w ≡ (out, w')
      → IsStreamed reply w out w' ⊎ IsBroken reply w out w'
  unfolding stream_with_audit
  stream_with_audit-IsStreamed reply w w' out h = ended (audit_of_stream reply w) refl h
    where
      run : Run
      run = iter_sse_events repr reply.raw_stream reply.decoder

      ended :
          (r : Result (Unit {0}) × W)
          → audit_of_stream reply w ≡ r
          → finished run r ≡ (out, w')
          → IsStreamed reply w out w' ⊎ IsBroken reply w out w'
      ended (ok u, v) q h =
          let at_end = q ∙ ap (λ x. (ok tt, x)) (ap (λ z. z.1) h) in
          inl (record {
            complete = sym (ap (λ z. z.0) h);
            audited = at_end;
            kept =
                audit_success-SuccessKept reply.authenticated reply.request_id reply.requested_model
                  reply.resolved_model reply.policy_decision (usage_dict run.decoder.usage)
                  reply.usage_snapshot reply.started_at w w' at_end;
          })
      ended (raised x, v) q h = inr (record {
        error = x;
        audited = q ∙ ap (λ y. (raised x, y)) (ap (λ z. z.1) h);
        complete = sym (ap (λ z. z.0) h);
      })
