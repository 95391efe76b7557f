-- ===== src/Audit.antt =====
-- proxy/audit_logger.py: the usage and audit records of a request, over the repository that keeps
-- them, the clock and the generator of ids.
pub mod Records
use claude_code_proxy.Prelude.{
  ℕ, String, Bool, Option, none, some, List, [], ◌∷◌, map, str_eq, if◌then◌else◌,
}
use claude_code_proxy.Prelude.Int.{ℤ}
use claude_code_proxy.Json.{Value, null, bool, int, text, array, object, Fields, get_field_or}
use claude_code_proxy.Exec.{Exec, Exn, Result, ok, raised, other, ◌>>=◌, ◌>>◌, pure, lift}
use claude_code_proxy.Domain.{
  UserContext, AuthenticatedRequestContext, UsageEventRecord, AuditEventRecord,
}
use claude_code_proxy.Policy.{PolicyDecision, PolicyEvaluationTrace}
use claude_code_proxy.Quota.{UsageCostSnapshot}
use claude_code_proxy.Converse.Response.{count_of}

pub record AuditServices (W F : Type 0) : Type 0 where
  -- UsageRepository
  pub record_usage : UsageEventRecord F → Exec W (Unit {0})
  pub record_audit : AuditEventRecord → Exec W (Unit {0})
  pub clock : Exec W ℕ
  pub event_id_generator : Exec W String
  -- the float 0.0
  pub zero_cost : F

-- authenticated.user
unfoldable pub user_of : AuthenticatedRequestContext → Result UserContext
user_of c = elim c.request.user [ none ↦ raised (other "AssertionError") | some user ↦ ok user ]

unfoldable pub denial_reason_to_event_type : String → String
denial_reason_to_event_type reason =
    if str_eq reason "quota_hard_limit_exceeded"
    then "quota_hard_limit_blocked"
    else if str_eq reason "rate_limited"
    then "rate_limited"
    else if str_eq reason "authentication_failed"
    then "auth_failure"
    else "policy_denied"

abbrev optional_text : Option String → Value
optional_text none = null
optional_text (some s) = text s

abbrev optional_int : Option ℤ → Value
optional_int none = null
optional_int (some n) = int n

unfoldable pub policy_result_payload : PolicyDecision → Value
policy_result_payload d = object (
    ("allowed", bool d.allowed)
    ∷ ("denial_reason", optional_text d.denial_reason)
    ∷ ("effective_max_output_tokens", optional_int d.effective_max_output_tokens)
    ∷ (
      "trace",
      object (
          ("evaluated_scopes", array (map text d.trace.evaluated_scopes))
          ∷ ("matched_policy_ids", array (map text d.trace.matched_policy_ids))
          ∷ []),
    )
    ∷ [])

module _ {W F : Type 0} (services : AuditServices W F) where
  abbrev cost_of : (UsageCostSnapshot F → F) → Option (UsageCostSnapshot F) → F
  cost_of f none = services.zero_cost
  cost_of f (some snapshot) = f snapshot

  abbrev pricing_of : Option (UsageCostSnapshot F) → Option String
  pricing_of none = none
  pricing_of (some snapshot) = some snapshot.pricing_catalog_id

  unfoldable pub usage_event :
      ℕ
      → String
      → String
      → UserContext
      → String
      → Option String
      → Fields
      → Option (UsageCostSnapshot F)
      → Option ℕ
      → Exec W (UsageEventRecord F)
  usage_event created_at id_ rid user requested_model resolved_model usage snapshot latency_ms = do
    input ← lift (count_of "input_tokens" usage)
    output ← lift (count_of "output_tokens" usage)
    total ← lift (count_of "total_tokens" usage)
    cache_write ← lift (count_of "cache_write_input_tokens" usage)
    cache_read ← lift (count_of "cache_read_input_tokens" usage)
    pure (record {
      id = id_;
      request_id = rid;
      user_id = user.user_id;
      user_email = user.email;
      requested_model = requested_model;
      resolved_model = resolved_model;
      pricing_catalog_id = pricing_of snapshot;
      input_tokens = input;
      output_tokens = output;
      total_tokens = total;
      cache_write_input_tokens = cache_write;
      cache_read_input_tokens = cache_read;
      cache_details = get_field_or "cache_details" null usage;
      estimated_input_cost_usd = cost_of (λ s. s.estimated_input_cost_usd) snapshot;
      estimated_output_cost_usd = cost_of (λ s. s.estimated_output_cost_usd) snapshot;
      estimated_cache_write_cost_usd = cost_of (λ s. s.estimated_cache_write_cost_usd) snapshot;
      estimated_cache_read_cost_usd = cost_of (λ s. s.estimated_cache_read_cost_usd) snapshot;
      estimated_total_cost_usd = cost_of (λ s. s.estimated_total_cost_usd) snapshot;
      latency_ms = latency_ms;
      team_id = none;
      created_at = created_at;
    })

  abbrev pub success_event :
      ℕ → String → String → UserContext → String → Option String → PolicyDecision → AuditEventRecord
  success_event created_at id_ rid user requested_model resolved_model decision = record {
    id = id_;
    request_id = rid;
    event_type = "auth_success";
    actor_user_id = some user.user_id;
    actor_user_email = user.email;
    decision = "allowed";
    requested_model = some requested_model;
    resolved_model = resolved_model;
    denial_reason = none;
    policy_result = some (policy_result_payload decision);
    team_id = none;
    created_at = created_at;
  }

  -- The two records are made before either is kept.
  unfoldable pub record_success :
      AuthenticatedRequestContext
      → String
      → String
      → Option String
      → PolicyDecision
      → Fields
      → Option (UsageCostSnapshot F)
      → Option ℕ
      → Exec W (Unit {0})
  record_success authenticated rid requested_model resolved_model decision usage snapshot
        latency_ms =
      do
        created_at ← services.clock
        usage_id ← services.event_id_generator
        user ← lift (user_of authenticated)
        usage_record ←
            usage_event created_at usage_id rid user requested_model resolved_model usage snapshot
              latency_ms
        audit_id ← services.event_id_generator
        services.record_usage usage_record
        services.record_audit
            (success_event created_at audit_id rid user requested_model resolved_model decision)

  unfoldable pub actor_of : Option AuthenticatedRequestContext → Result (Option UserContext)
  actor_of none = ok none
  actor_of (some c) = elim (user_of c) [ raised e ↦ raised e | ok user ↦ ok (some user) ]

  abbrev actor_id : Option UserContext → Option String
  actor_id none = none
  actor_id (some user) = some user.user_id

  abbrev actor_email : Option UserContext → Option String
  actor_email none = none
  actor_email (some user) = user.email

  abbrev payload_of : Option PolicyDecision → Option Value
  payload_of none = none
  payload_of (some decision) = some (policy_result_payload decision)

  abbrev pub denial_event :
      ℕ
      → String
      → String
      → String
      → Option UserContext
      → Option String
      → Option String
      → Option PolicyDecision
      → AuditEventRecord
  denial_event created_at id_ rid reason actor requested_model resolved_model decision = record {
    id = id_;
    request_id = rid;
    event_type = denial_reason_to_event_type reason;
    actor_user_id = actor_id actor;
    actor_user_email = actor_email actor;
    decision = "denied";
    requested_model = requested_model;
    resolved_model = resolved_model;
    denial_reason = some reason;
    policy_result = payload_of decision;
    team_id = none;
    created_at = created_at;
  }

  unfoldable pub record_denial :
      String
      → String
      → Option AuthenticatedRequestContext
      → Option String
      → Option String
      → Option PolicyDecision
      → Exec W (Unit {0})
  record_denial rid reason authenticated requested_model resolved_model decision = do
    id_ ← services.event_id_generator
    actor ← lift (actor_of authenticated)
    created_at ← services.clock
    services.record_audit
        (denial_event created_at id_ rid reason actor requested_model resolved_model decision)
