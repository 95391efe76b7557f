-- ===== src/Router.antt =====
-- api/proxy_router.py: what every request to the proxy goes through, over the services that the router
-- is given.
pub mod Messages
pub mod CreateMessage
pub mod CountTokens
pub mod Quiet
pub mod Admission
pub mod Served
pub mod Denials
pub mod Unlimited
pub mod Recorded
use Prim.Native.String.{◌++◌ as str_append}
use claude_code_proxy.Prelude.{
  ℕ, String, Bool, true, false, not, Option, none, some, List, [], ◌∷◌, any, if◌then◌else◌,
}
use claude_code_proxy.Prelude.Int.{pos}
use claude_code_proxy.Json.{Value, null, bool, int, real, text, list, dict, Fields, get_field}
use claude_code_proxy.Json.Convert.{or_key_error}
use claude_code_proxy.Errors.{ServiceError}
use claude_code_proxy.Exec.{
  Exec, Exn, Result, ok, raised, service, other, model_resolution, ◌>>=◌, ◌>>◌, pure, raise, lift,
}
use claude_code_proxy.Domain.{AuthenticatedRequestContext, ModelAliasRuleRecord, ModelPricingRecord}
use claude_code_proxy.Auth.{AuthRepositories, authenticate}
use claude_code_proxy.Resolver.{ModelRepositories, ResolvedModel, resolve, unknown_model}
use claude_code_proxy.Policy.{PolicyDecision}
use claude_code_proxy.Quota.{Floats, QuotaDecision, UsageCostSnapshot, GetActivePricing}
use claude_code_proxy.RateLimiter.{InMemoryRateLimiter, RateLimitDecision}
use claude_code_proxy.RateLimiter.{check}
use claude_code_proxy.Audit.{AuditServices, record_denial}
use claude_code_proxy.ErrorResponses.{JsonResponse, error_response_for_exception}
use claude_code_proxy.Converse.Stream.{Decoder}
use claude_code_proxy.Converse.Request.Build.{ConverseRequest}
use claude_code_proxy.Observability.{RequestScope, Timer}

-- The client of Bedrock: a response, a stream of events, a count. Each step of the iteration over the
-- stream gives an event, or raises.
pub record BedrockClient (W : Type 0) : Type 0 where
  pub converse : ConverseRequest → Exec W Fields
  pub converse_stream : ConverseRequest → Exec W (List (Result Fields))
  pub count_tokens : ConverseRequest → Exec W Fields

-- The services of AppDependencies that the router calls; the audit logger may be missing.
pub record ProxyDependencies (W T F : Type 0) : Type 0 where
  pub hash_virtual_key : String → String
  pub auth_repositories : AuthRepositories W
  pub model_repositories : ModelRepositories W
  pub get_active_pricing : Option (String → Exec W (Option (ModelPricingRecord F)))
  -- the rate limiter in memory, and the clock that it reads
  pub clock : Exec W ℕ
  pub limiter_of : W → InMemoryRateLimiter
  pub with_limiter : InMemoryRateLimiter → W → W
  pub bedrock_client : BedrockClient W
  pub audit_logger : Option (AuditServices W F)
  pub request_scope : RequestScope W
  pub timer : Timer W T

-- The answer to a request: a JSON body with status 200, a stream, or an error.
pub record StreamingReply (T F : Type 0) : Type 0 where
  pub raw_stream : List (Result Fields)
  pub decoder : Decoder
  pub authenticated : AuthenticatedRequestContext
  pub request_id : String
  pub requested_model : String
  pub resolved_model : Option String
  pub policy_decision : PolicyDecision
  pub usage_snapshot : Option (UsageCostSnapshot F)
  pub started_at : T

pub data Reply (T F : Type 0) : Type 0 where
  message : Value → Reply T F
  streaming : StreamingReply T F → Reply T F
  failure : JsonResponse → Reply T F

-- body["model"]
unfoldable pub model_of : Value → Result Value
model_of (dict m) = or_key_error (get_field "model" m)
model_of v = raised (other "TypeError")

-- `try: m except Exception as error: ...`, as the result that the handler goes on with
abbrev pub attempted {ℓ} : {W A : Type ℓ} → Result A × W → Result (Result A) × W
attempted (r, w) = (ok r, w)

abbrev pub attempt {ℓ} : {W A : Type ℓ} → Exec W A → Exec W (Result A)
attempt m w = attempted (m w)

abbrev pub error_reply : {T F : Type 0} → String → Exn → Reply T F
error_reply rid e = failure (error_response_for_exception e rid)

abbrev pub or_failure : {T F : Type 0} → String → Result (Reply T F) → Reply T F
or_failure rid (ok r) = r
or_failure rid (raised e) = error_reply rid e

module _ {W T F : Type 0} (repr : Value → String) (dependencies : ProxyDependencies W T F) where
  -- A name that is no text matches no pattern: `fnmatchcase` raises on it, if there is a rule to match.
  unfoldable pub refuse_model : Value → List ModelAliasRuleRecord → Result ResolvedModel
  refuse_model v rules =
      if any (λ rule. rule.is_active) rules
      then raised (other "TypeError")
      else unknown_model (repr v)

  -- The text of the model, with its route.
  unfoldable pub resolve_requested : Value → Exec W (String × ResolvedModel)
  resolve_requested (text s) = do
    resolved ← resolve dependencies.model_repositories s
    pure (s, resolved)
  resolve_requested v = do
    rules ← dependencies.model_repositories.list_alias_rules
    resolved ← lift (refuse_model v rules)
    pure (repr v, resolved)

  unfoldable pub authenticate_request : Option String → String → Exec W AuthenticatedRequestContext
  authenticate_request header rid =
      authenticate dependencies.hash_virtual_key dependencies.auth_repositories header rid

  unfoldable pub check_rate : String → Exec W RateLimitDecision
  check_rate user_id = do now ← dependencies.clock; decided now user_id
    where
      decided : ℕ → String → Exec W RateLimitDecision
      decided now user_id w =
          let r = check now (dependencies.limiter_of w) user_id in
          (ok r.0, dependencies.with_limiter r.1 w)

  unfoldable pub audit_denial :
      String
      → String
      → Option AuthenticatedRequestContext
      → Option String
      → Option String
      → Option PolicyDecision
      → Exec W (Unit {0})
  audit_denial rid reason authenticated requested_model resolved_model decision =
      elim dependencies.audit_logger [
        | none ↦ pure tt
        | some logger ↦
            record_denial logger rid reason authenticated requested_model resolved_model decision
      ]
