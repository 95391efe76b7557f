-- ===== src/Audit/Records.antt =====
-- Which records a request leaves.
use claude_code_proxy.Prelude.{
  ℕ, String, Option, ◌≡◌, ◌≢◌, refl, sym, ap, arith, str_eq, str_eq_iff, false, Bool-cases, inl,
  inr,
}
use claude_code_proxy.Json.{Fields}
use claude_code_proxy.Exec.{ok, bind_ok, lift_bind_ok, returned}
use claude_code_proxy.Domain.{UserContext, AuthenticatedRequestContext, UsageEventRecord}
use claude_code_proxy.Policy.{PolicyDecision}
use claude_code_proxy.Quota.{UsageCostSnapshot}
use claude_code_proxy.Converse.Response.{count_of}
use claude_code_proxy.Audit.{
  AuditServices, record_success, record_denial, usage_event, success_event, denial_event, user_of,
  actor_of, denial_reason_to_event_type,
}

different : (s t : String) → str_eq s t ≡ false → s ≢ t
different s t h e = ground (arith, h, (str_eq_iff s t).1 e)

not_success : (reason : String) → denial_reason_to_event_type reason ≢ "auth_success"
unfolding denial_reason_to_event_type
not_success reason = elim (Bool-cases (str_eq reason "quota_hard_limit_exceeded")) [
  | inl a ↦ λ h. different _ _ refl (rw a at h)
  | inr a ↦ elim (Bool-cases (str_eq reason "rate_limited")) [
    | inl b ↦ λ h. different _ _ refl (rw (a, b) at h)
    | inr b ↦ elim (Bool-cases (str_eq reason "authentication_failed")) [
      | inl c ↦ λ h. different _ _ refl (rw (a, b, c) at h)
      | inr c ↦ λ h. different _ _ refl (rw (a, b, c) at h)
    ]
  ]
]

module _ {W F : Type 0} (services : AuditServices W F) where
  usage_event-attributed :
      (at : ℕ) (i rid : String) (user : UserContext) (model : String) (resolved : Option String)
      (usage : Fields) (snapshot : Option (UsageCostSnapshot F)) (latency_ms : Option ℕ) (w w' : W)
      (u : UsageEventRecord F)
      → usage_event services at i rid user model resolved usage snapshot latency_ms w ≡ (ok u, w')
      → (u.request_id ≡ rid) × (u.user_id ≡ user.user_id) × (u.created_at ≡ at)
  unfolding usage_event
  usage_event-attributed at i rid user model resolved usage snapshot latency_ms w w' u h =
      let (a, e1, h1) = lift_bind_ok (count_of "input_tokens" usage) _ w w' u h in
      let (b, e2, h2) = lift_bind_ok (count_of "output_tokens" usage) _ w w' u h1 in
      let (c, e3, h3) = lift_bind_ok (count_of "total_tokens" usage) _ w w' u h2 in
      let (d, e4, h4) = lift_bind_ok (count_of "cache_write_input_tokens" usage) _ w w' u h3 in
      let (e, e5, h5) = lift_bind_ok (count_of "cache_read_input_tokens" usage) _ w w' u h4 in
      let (q, v) = returned _ u w w' h5 in
      (
        ap (λ (x : UsageEventRecord F). x.request_id) (sym q),
        ap (λ (x : UsageEventRecord F). x.user_id) (sym q),
        ap (λ (x : UsageEventRecord F). x.created_at) (sym q),
      )

  -- The records of a success: a usage record, then an audit record with the decision `allowed`, both
  -- for the user of the context, this request and the same time.
  pub record SuccessKept (authenticated : AuthenticatedRequestContext) (rid model : String)
      (resolved : Option String) (decision : PolicyDecision) (w' : W) : Type 0 where
    pub created_at : ℕ
    pub audit_id : String
    pub user : UserContext
    pub usage : UsageEventRecord F
    pub before : W
    pub between : W
    pub user_known : user_of authenticated ≡ ok user
    pub attributed :
        (usage.request_id ≡ rid) × (usage.user_id ≡ user.user_id) × (usage.created_at ≡ created_at)
    pub usage_kept : services.record_usage usage before ≡ (ok tt, between)
    pub audit_kept :
        services.record_audit
          (success_event services created_at audit_id rid user model resolved decision)
          between
        ≡ (ok tt, w')

  -- When `record_success` returns, the usage repository has kept a usage record and then the audit
  -- record of the success.
  pub record_success-SuccessKept :
      (authenticated : AuthenticatedRequestContext) (rid model : String) (resolved : Option String)
      (decision : PolicyDecision) (usage : Fields) (snapshot : Option (UsageCostSnapshot F))
      (latency_ms : Option ℕ) (w w' : W)
      → record_success services authenticated rid model resolved decision usage snapshot latency_ms
          w
        ≡ (ok tt, w')
      → SuccessKept authenticated rid model resolved decision w'
  unfolding record_success
  record_success-SuccessKept authenticated rid model resolved decision usage snapshot latency_ms w
        w' h =
      let (at, w1, e1, h1) = bind_ok services.clock _ w w' tt h in
      let (i, w2, e2, h2) = bind_ok services.event_id_generator _ w1 w' tt h1 in
      let (user, e3, h3) = lift_bind_ok (user_of authenticated) _ w2 w' tt h2 in
      let (u, w4, e4, h4) =
        bind_ok (usage_event services at i rid user model resolved usage snapshot latency_ms) _ w2
          w' tt h3 in
      let (j, w5, e5, h5) = bind_ok services.event_id_generator _ w4 w' tt h4 in
      let (t, w6, e6, h6) = bind_ok (services.record_usage u) _ w5 w' tt h5 in
      record {
        created_at = at;
        audit_id = j;
        user = user;
        usage = u;
        before = w5;
        between = w6;
        user_known = e3;
        attributed =
            usage_event-attributed at i rid user model resolved usage snapshot latency_ms w2 w4 u
              e4;
        usage_kept = e6;
        audit_kept = h6;
      }

  -- The record of a denial: an audit record with the decision `denied` and the reason, whose type is
  -- never that of a success.
  pub record DenialKept (rid reason : String) (authenticated : Option AuthenticatedRequestContext)
      (model resolved : Option String) (decision : Option PolicyDecision) (w' : W) : Type 0 where
    pub created_at : ℕ
    pub audit_id : String
    pub actor : Option UserContext
    pub before : W
    pub actor_known : actor_of services authenticated ≡ ok actor
    pub not_success : denial_reason_to_event_type reason ≢ "auth_success"
    pub audit_kept :
        services.record_audit
          (denial_event services created_at audit_id rid reason actor model resolved decision)
          before
        ≡ (ok tt, w')

  -- When `record_denial` returns, the usage repository has kept the audit record of the denial, which
  -- has the reason and an event type other than that of a success.
  pub record_denial-DenialKept :
      (rid reason : String) (authenticated : Option AuthenticatedRequestContext)
      (model resolved : Option String) (decision : Option PolicyDecision) (w w' : W)
      → record_denial services rid reason authenticated model resolved decision w ≡ (ok tt, w')
      → DenialKept rid reason authenticated model resolved decision w'
  unfolding record_denial
  record_denial-DenialKept rid reason authenticated model resolved decision w w' h =
      let (i, w1, e1, h1) = bind_ok services.event_id_generator _ w w' tt h in
      let (actor, e2, h2) = lift_bind_ok (actor_of services authenticated) _ w1 w' tt h1 in
      let (at, w3, e3, h3) = bind_ok services.clock _ w1 w' tt h2 in
      record {
        created_at = at;
        audit_id = i;
        actor = actor;
        before = w3;
        actor_known = e2;
        not_success = not_success reason;
        audit_kept = h3;
      }
