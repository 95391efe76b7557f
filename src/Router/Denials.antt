-- ===== src/Router/Denials.antt =====
-- What a client is told that /v1/messages denies, and what is kept of it.
use claude_code_proxy.Prelude.{
  ℕ, String, Bool, true, false, Option, none, some, lookup, ◌≡◌, refl, sym, ap, ◌∙◌,
}
use claude_code_proxy.Json.{Value}
use claude_code_proxy.Errors.{ServiceError, rate_limit_exceeded_error}
use claude_code_proxy.Exec.{Exec, Result, ok, service, bind_ok, returned}
use claude_code_proxy.Policy.{PolicyDecision}
use claude_code_proxy.Policy as Policy
use claude_code_proxy.Quota.{Floats, UsageCostSnapshot}
use claude_code_proxy.RateLimiter.{RateLimitDecision}
use claude_code_proxy.Audit.{AuditServices, record_denial}
use claude_code_proxy.Audit.Records.{DenialKept, record_denial-DenialKept}
use claude_code_proxy.Text.Print.{text_of_nat}
use claude_code_proxy.ErrorResponses.{
  error_response_for_exception, service_error_response, normalize_exception,
  anthropic_error_response,
}
use claude_code_proxy.Router.{ProxyDependencies, Reply, failure, error_reply, audit_denial}
use claude_code_proxy.Router.Messages.{Admission, deny, on_rate, limited_error, gate}

-- Why the policy engine blocks a user, whatever the model.
unfoldable pub blocked_reason : Bool → String
blocked_reason true = "proxy_access_disabled"
blocked_reason false = "user_inactive"

gate_shut :
    {W A : Type 0} (b : Bool) (go stop : Exec W A) (w : W) {r : Result A × W}
    → b ≡ false
    → gate b go stop w ≡ r
    → stop w ≡ r
gate_shut true go stop w q h = cc q
gate_shut false go stop w q h = h

module _ {W T : Type 0} (repr : Value → String) (floats : Floats)
    (d : ProxyDependencies W T (floats.F)) (logger : AuditServices W (floats.F))
    (a : Admission T) where
  -- A denial: the audit record of its reason is kept, and the reply is the response for its error.
  pub record IsDenial (decision : PolicyDecision) (reason : String) (error : ServiceError)
      (reply : Reply T (floats.F)) (w' : W) : Type 0 where
    pub answered : reply ≡ failure (error_response_for_exception (service error) a.request_id)
    pub kept :
        DenialKept logger a.request_id reason
          (some a.authenticated)
          (some a.requested_model)
          a.resolved_model.bedrock_model_id
          (some decision)
          w'

  audited :
      (decision : PolicyDecision) (reason : String) (w : W)
      → d.audit_logger ≡ some logger
      → audit_denial repr d a.request_id reason
          (some a.authenticated)
          (some a.requested_model)
          a.resolved_model.bedrock_model_id
          (some decision)
          w
        ≡ record_denial logger a.request_id reason
            (some a.authenticated)
            (some a.requested_model)
            a.resolved_model.bedrock_model_id
            (some decision)
            w
  unfolding audit_denial
  audited decision reason w e = rw e refl

  deny-IsDenial :
      (decision : PolicyDecision) (reason : String) (error : ServiceError) (w w' : W)
      (reply : Reply T (floats.F))
      → d.audit_logger ≡ some logger
      → deny repr floats d a decision reason error w ≡ (ok reply, w')
      → IsDenial decision reason error reply w'
  unfolding deny
  deny-IsDenial decision reason error w w' reply e h =
      let (u, w1, q, h1) =
        bind_ok
          (audit_denial repr d a.request_id reason (some a.authenticated) (some a.requested_model)
            a.resolved_model.bedrock_model_id (some decision))
          _ w w' reply h in
      denied w1 (sym (audited decision reason w e) ∙ q) (returned _ reply w1 w' h1)
    where
      denied :
          (w1 : W)
          → record_denial logger a.request_id reason
              (some a.authenticated)
              (some a.requested_model)
              a.resolved_model.bedrock_model_id
              (some decision)
              w
            ≡ (ok tt, w1)
          → (error_reply a.request_id (service error) ≡ reply) × (w1 ≡ w')
          → IsDenial decision reason error reply w'
      denied w1 q (r, v) = record {
        answered = sym r;
        kept =
            record_denial-DenialKept logger a.request_id reason (some a.authenticated)
              (some a.requested_model) a.resolved_model.bedrock_model_id (some decision) w w'
              (q ∙ ap (λ x. (ok tt, x)) v);
      }

  -- The status of a reply that is an error, and its header for the time to wait.
  abbrev pub HasStatus : ℕ → Option String → Reply T (floats.F) → Type 0
  HasStatus status wait (failure r) =
      (r.status_code ≡ status) × (lookup "Retry-After" r.headers ≡ wait)
  HasStatus status wait _ = ⊥

  abbrev shown_seconds : Option ℕ → Option String
  shown_seconds none = none
  shown_seconds (some n) = some (text_of_nat n)

  limited-HasStatus :
      (seconds : Option ℕ)
      → HasStatus 429
          (shown_seconds seconds)
          (error_reply a.request_id (service (limited_error a.request_id seconds)))
  unfolding error_response_for_exception normalize_exception service_error_response
      anthropic_error_response rate_limit_exceeded_error lookup
  limited-HasStatus none = (refl, refl)
  limited-HasStatus (some n) = (refl, refl)

  -- With an audit logger, when the step for a request over the rate limit returns a reply, the denial is kept
  -- as `rate_limited`, and the reply has status 429 and a header for the seconds to wait, if the limiter names
  -- them.
  pub on_rate-IsDenial :
      (decision : PolicyDecision) (snapshot : Option (UsageCostSnapshot (floats.F)))
      (rate : RateLimitDecision) (w w' : W) (reply : Reply T (floats.F))
      → d.audit_logger ≡ some logger
      → rate.allowed ≡ false
      → on_rate repr floats d a decision snapshot rate w ≡ (ok reply, w')
      → IsDenial decision "rate_limited"
          (limited_error a.request_id rate.retry_after_seconds)
          reply
          w'
        × HasStatus 429 (shown_seconds rate.retry_after_seconds) reply
  unfolding on_rate
  on_rate-IsDenial decision snapshot rate w w' reply e b h =
      let denial =
        deny-IsDenial decision "rate_limited" (limited_error a.request_id rate.retry_after_seconds)
          w w' reply e (gate_shut rate.allowed _ _ w b h) in
      (denial, rw denial.answered (limited-HasStatus rate.retry_after_seconds))
