-- ===== src/Router/Messages.antt =====
-- api/proxy_router.py, create_message: authentication, model, policy, quota and rate limit, and then the
-- call of Bedrock, with the audit of each outcome.
use Prim.Native.String.{◌++◌ as str_append}
use claude_code_proxy.Prelude.{
  ℕ, String, Bool, true, false, Option, none, some, List, [], ◌∷◌, Dict, str_eq,
}
use claude_code_proxy.Json.{Value, null, text, Fields, str}
use claude_code_proxy.Errors.{ServiceError, access_denied_error, rate_limit_exceeded_error}
use claude_code_proxy.Exec.{Exec, Result, service, ◌>>=◌, ◌>>◌, pure, lift}
use claude_code_proxy.Domain.{AuthenticatedRequestContext}
use claude_code_proxy.Resolver.{ResolvedModel}
use claude_code_proxy.Policy.{PolicyDecision}
use claude_code_proxy.Policy as Policy
use claude_code_proxy.Quota.{Floats, QuotaDecision, UsageCostSnapshot, zero_cost}
use claude_code_proxy.Quota as Quota
use claude_code_proxy.RateLimiter.{RateLimitDecision}
use claude_code_proxy.Audit.{record_success, user_of}
use claude_code_proxy.Text.Print.{text_of_nat}
use claude_code_proxy.Converse.Response.{fields_of, parse_converse_response}
use claude_code_proxy.Converse.Stream.{new_decoder, item_at}
use claude_code_proxy.Converse.Request.Build.{ConverseRequest, build_converse_request, first_truthy}
use claude_code_proxy.Router.{
  ProxyDependencies, Reply, StreamingReply, message, streaming, model_of, error_reply,
  resolve_requested, check_rate, audit_denial,
}

-- f"{reason}"
abbrev shown : Option String → String
shown none = "None"
shown (some s) = s

abbrev pub blocked_error : String → String → Option String → ServiceError
blocked_error by rid reason = access_denied_error rid none (
    str_append "Request blocked by "
      (str_append by (str_append ": " (str_append (shown reason) "."))))

abbrev retry_headers : Option ℕ → Dict String
retry_headers none = []
retry_headers (some seconds) = ("Retry-After", text_of_nat seconds) ∷ []

abbrev pub limited_error : String → Option ℕ → ServiceError
limited_error rid seconds =
    rate_limit_exceeded_error rid none (some (retry_headers seconds)) "Rate limit exceeded."

-- The model of an audited request that was not authenticated, `body.get("model")`. A record keeps texts:
-- a model that is none stands there in its printed form.
abbrev pub named : (Value → String) → Value → Option String
named repr null = none
named repr v = some (str repr v)

-- `if not allowed: return stop`
abbrev pub gate : {W A : Type 0} → Bool → Exec W A → Exec W A → Exec W A
gate true go stop = go
gate false go stop = stop

-- What is known of a request once its model is resolved.
pub record Admission (T : Type 0) : Type 0 where
  pub request_id : String
  pub started_at : T
  pub body : Fields
  pub authenticated : AuthenticatedRequestContext
  pub requested_model : String
  pub resolved_model : ResolvedModel

module _ {W T : Type 0} (repr : Value → String) (floats : Floats)
    (dependencies : ProxyDependencies W T (floats.F)) where
  unfoldable pub audit_success :
      AuthenticatedRequestContext
      → String
      → String
      → Option String
      → PolicyDecision
      → Value
      → Option (UsageCostSnapshot (floats.F))
      → T
      → Exec W (Unit {0})
  audit_success authenticated rid requested_model resolved_model decision usage snapshot
        started_at =
      elim dependencies.audit_logger [
        | none ↦ pure tt
        | some logger ↦ do
          now ← dependencies.timer.perf_counter
          used ← lift (fields_of usage)
          record_success logger authenticated rid requested_model resolved_model decision used
              snapshot (some (dependencies.timer.milliseconds_between started_at now))
      ]

  -- A denial is audited, and then answered with its error.
  unfoldable pub deny :
      Admission T → PolicyDecision → String → ServiceError → Exec W (Reply T (floats.F))
  deny a decision reason error = do
    audit_denial repr dependencies a.request_id reason (some a.authenticated)
        (some a.requested_model) a.resolved_model.bedrock_model_id (some decision)
    pure (error_reply a.request_id (service error))

  unfoldable pub answer :
      Admission T
      → PolicyDecision
      → Option (UsageCostSnapshot (floats.F))
      → Fields
      → Exec W (Reply T (floats.F))
  answer a decision snapshot raw_response = do
    parsed ← lift (parse_converse_response raw_response (some a.requested_model))
    usage ← lift (item_at "usage" parsed)
    audit_success a.authenticated a.request_id a.requested_model a.resolved_model.bedrock_model_id
        decision usage snapshot a.started_at
    pure (message parsed)

  abbrev pub stream_reply :
      Admission T
      → PolicyDecision
      → Option (UsageCostSnapshot (floats.F))
      → List (Result Fields)
      → StreamingReply T (floats.F)
  stream_reply a decision snapshot raw_stream = record {
    raw_stream = raw_stream;
    decoder = new_decoder (text a.requested_model);
    authenticated = a.authenticated;
    request_id = a.request_id;
    requested_model = a.requested_model;
    resolved_model = a.resolved_model.bedrock_model_id;
    policy_decision = decision;
    usage_snapshot = snapshot;
    started_at = a.started_at;
  }

  unfoldable pub call_bedrock :
      Admission T
      → PolicyDecision
      → Option (UsageCostSnapshot (floats.F))
      → ConverseRequest
      → Exec W (Reply T (floats.F))
  call_bedrock a decision snapshot request =
      gate (str_eq request.operation "converse_stream")
        (do
          raw_stream ← dependencies.bedrock_client.converse_stream request
          pure (streaming (stream_reply a decision snapshot raw_stream)))
        (do
          raw_response ← dependencies.bedrock_client.converse request
          answer a decision snapshot raw_response)

  unfoldable pub forward :
      Admission T
      → PolicyDecision
      → Option (UsageCostSnapshot (floats.F))
      → Exec W (Reply T (floats.F))
  forward a decision snapshot = do
    request ← lift (build_converse_request repr a.body a.resolved_model)
    call_bedrock a decision snapshot request

  unfoldable pub on_rate :
      Admission T
      → PolicyDecision
      → Option (UsageCostSnapshot (floats.F))
      → RateLimitDecision
      → Exec W (Reply T (floats.F))
  on_rate a decision snapshot rate =
      gate rate.allowed (forward a decision snapshot)
        (deny a decision "rate_limited" (limited_error a.request_id rate.retry_after_seconds))

  unfoldable pub within_quota :
      Admission T
      → PolicyDecision
      → Option (UsageCostSnapshot (floats.F))
      → Exec W (Reply T (floats.F))
  within_quota a decision snapshot = do
    user ← lift (user_of a.authenticated)
    rate ← check_rate repr dependencies user.user_id
    on_rate a decision snapshot rate

  unfoldable pub on_quota :
      Admission T → PolicyDecision → Quota.QuotaDecision (floats.F) → Exec W (Reply T (floats.F))
  on_quota a decision quota = gate quota.allowed (within_quota a decision quota.usage_snapshot) (
      deny a decision (first_truthy quota.denial_reason "quota_hard_limit_exceeded")
        (blocked_error "quota" a.request_id quota.denial_reason))

  -- Neither budget policies nor an estimate of the tokens are passed on.
  unfoldable pub within_policy : Admission T → PolicyDecision → Exec W (Reply T (floats.F))
  within_policy a decision = do
    quota ←
        Quota.evaluate floats dependencies.get_active_pricing [] (zero_cost floats) none
          a.resolved_model.bedrock_model_id none
    on_quota a decision quota

  unfoldable pub on_policy : Admission T → PolicyDecision → Exec W (Reply T (floats.F))
  on_policy a decision = gate decision.allowed (within_policy a decision) (
      deny a decision (first_truthy decision.denial_reason "policy_denied")
        (blocked_error "policy" a.request_id decision.denial_reason))

  unfoldable pub on_resolved : Admission T → Exec W (Reply T (floats.F))
  on_resolved a = do
    decision ← lift (Policy.evaluate a.authenticated.user_record a.requested_model [])
    on_policy a decision

  -- The body of the second `try`.
  unfoldable pub serve :
      String → T → Value → AuthenticatedRequestContext → Exec W (Reply T (floats.F))
  serve rid started_at body authenticated = do
    model ← lift (model_of body)
    resolved ← resolve_requested repr dependencies model
    m ← lift (fields_of body)
    on_resolved (record {
      request_id = rid;
      started_at = started_at;
      body = m;
      authenticated = authenticated;
      requested_model = resolved.0;
      resolved_model = resolved.1;
    })
