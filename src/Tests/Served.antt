-- ===== src/Tests/Served.antt =====
-- api/proxy_router.py: what is served, denied and recorded of a request.
use claude_code_proxy.Prelude.{ℕ, Bool, false, none, some, [], ◌∷◌, ◌≡◌, refl}
use claude_code_proxy.Exec.{Exn, ok}
use claude_code_proxy.Domain.{UserRecord, AuthenticatedRequestContext}
use claude_code_proxy.Text.Print.{text_of_nat}
use claude_code_proxy.Auth.{restore_trusted_request_context}
use claude_code_proxy.Resolver.{ResolvedModel, resolved}
use claude_code_proxy.Policy as Policy
use claude_code_proxy.Policy.{PolicyDecision}
use claude_code_proxy.RateLimiter.{RateLimitDecision}
use claude_code_proxy.Audit.{record_denial, user_of, actor_of, denial_reason_to_event_type}
use claude_code_proxy.Router.{Reply, error_reply, audit_denial}
use claude_code_proxy.Router.Messages.{Admission, on_rate, deny, blocked_error, limited_error}
use claude_code_proxy.Router.Denials.{IsDenial, HasStatus, on_rate-IsDenial}
use claude_code_proxy.Router.Unlimited.{open_decision}
use claude_code_proxy.Tests.Fixtures.{alice, whole}
use claude_code_proxy.Tests.Router.{shown, World, logger, dependencies, start, request, rule, route}

abbrev pub context : UserRecord → AuthenticatedRequestContext
context user = restore_trusted_request_context "r1" user "k1" "vk_abc" "vk_abc"

abbrev pub sonnet : ResolvedModel
sonnet = resolved "claude" rule route

abbrev pub asked : UserRecord → Bool → Admission ℕ
asked user stream = record {
  request_id = "r1";
  started_at = 0;
  body = request stream;
  authenticated = context user;
  requested_model = "claude";
  resolved_model = sonnet;
}

abbrev retired_user : UserRecord
retired_user = record alice { is_active = false }

abbrev inactive_reply : Reply ℕ ℕ
inactive_reply = error_reply "r1" (Exn.service (blocked_error "policy" "r1" (some "user_inactive")))

abbrev after_denial : World
after_denial = record start { audits = "policy_denied" ∷ [] }

abbrev over_limit : RateLimitDecision
over_limit = record { allowed = false; retry_after_seconds = some 30; remaining_requests = some 0 }

abbrev limited_reply : Reply ℕ ℕ
limited_reply = error_reply "r1" (Exn.service (limited_error "r1" (some 30)))

abbrev after_limit : World
after_limit = record start { audits = "rate_limited" ∷ [] }

limit_denied :
    on_rate shown whole
      (dependencies alice)
      (asked alice false)
      (open_decision alice)
      none
      over_limit
      start
    ≡ (ok limited_reply, after_limit)
unfolding on_rate deny audit_denial record_denial actor_of user_of denial_reason_to_event_type
    restore_trusted_request_context
limit_denied = refl

on_rate-IsDenial_example :
    IsDenial shown whole
      (dependencies alice)
      logger
      (asked alice false)
      (open_decision alice)
      "rate_limited"
      (limited_error "r1" (some 30))
      limited_reply
      after_limit
    × HasStatus shown whole
        (dependencies alice)
        logger
        (asked alice false)
        429
        (some (text_of_nat 30))
        limited_reply
on_rate-IsDenial_example =
    on_rate-IsDenial shown whole (dependencies alice) logger (asked alice false)
      (open_decision alice) none over_limit start after_limit limited_reply refl refl limit_denied
