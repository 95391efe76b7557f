-- ===== src/Router/Unlimited.antt =====
-- What /v1/messages does not ask for.
use claude_code_proxy.Prelude.{
  String, true, Option, none, some, List, [], ◌∷◌, ◌≡◌, refl, In, here, arith,
}
use claude_code_proxy.Json.{Value}
use claude_code_proxy.Exec.{Result, ok, raised, ◌>>=◌, ◌>>?◌, pure, continue}
use claude_code_proxy.Domain.{UserRecord, PolicyRecord, ModelPricingRecord}
use claude_code_proxy.Policy.{
  PolicyDecision, PolicyEvaluationTrace, trace_of, collect_policies_by_scope,
  resolve_effective_max_output_tokens,
}
use claude_code_proxy.Policy.Scopes.{In-collect_policies_by_scope}
use claude_code_proxy.Policy as Policy
use claude_code_proxy.Quota.{Floats, get_active_pricing, zero_cost}
use claude_code_proxy.Quota as Quota
use claude_code_proxy.Router.{ProxyDependencies}
use claude_code_proxy.Router.Messages.{
  Admission, on_resolved, on_policy, within_policy, on_quota, within_quota,
}

-- The decision of the policy engine without policies.
abbrev pub open_decision : UserRecord → PolicyDecision
open_decision user = record {
  allowed = true;
  denial_reason = none;
  effective_max_output_tokens = none;
  trace = trace_of (collect_policies_by_scope user []);
}

no_elements : {A : Type 0} (xs : List A) → ((a : A) → In a xs → ⊥) → xs ≡ []
no_elements [] h = refl
no_elements (x ∷ xs) h = absurd (h x (here refl))

In-nil : {A : Type 0} (a : A) → In a [] → ⊥
In-nil a i = elim i [ ]

collected_nothing : (user : UserRecord) → (collect_policies_by_scope user []).1 ≡ []
collected_nothing user =
    no_elements _ λ p i. In-nil p ((In-collect_policies_by_scope user [] p).0 i).0

decided :
    (model : String) (policies : List PolicyRecord) (trace : PolicyEvaluationTrace)
    → policies ≡ []
    → (resolve_effective_max_output_tokens policies >>? λ limit.
        ok (Policy.decide model policies limit trace))
      ≡ ok (record {
        allowed = true;
        denial_reason = none;
        effective_max_output_tokens = none;
        trace = trace;
      })
unfolding resolve_effective_max_output_tokens Policy.token_limits
decided model policies trace h = rw h refl

evaluate_open :
    (user : UserRecord) (model : String)
    → user.is_active ≡ true
    → user.proxy_access_enabled ≡ true
    → Policy.evaluate user model [] ≡ ok (open_decision user)
unfolding Policy.evaluate
evaluate_open user model a b = ground (
  arith,
  a,
  b,
  decided model (collect_policies_by_scope user []).1 (trace_of (collect_policies_by_scope user []))
      (collected_nothing user),
)

module _ {W T : Type 0} (repr : Value → String) (floats : Floats)
    (d : ProxyDependencies W T (floats.F)) where
  -- For an active user with access, /v1/messages goes on to the rate limit whatever the model and whatever
  -- was used: without policies and budgets, the policy engine and the quota engine allow everything.
  pub on_resolved_open :
      (a : Admission T) (w : W)
      → a.authenticated.user_record.is_active ≡ true
      → a.authenticated.user_record.proxy_access_enabled ≡ true
      → on_resolved repr floats d a w
        ≡ (get_active_pricing floats d.get_active_pricing a.resolved_model.bedrock_model_id
              >>= λ pricing.
                  within_quota repr floats d a (open_decision a.authenticated.user_record) none)
            w
  unfolding on_resolved on_policy within_policy on_quota Quota.evaluate
      Quota.select_effective_policy Quota.build_usage_snapshot
  on_resolved_open a w p q =
      rw (evaluate_open a.authenticated.user_record a.requested_model p q) (
        priced (get_active_pricing floats d.get_active_pricing a.resolved_model.bedrock_model_id w))
    where
      decision : PolicyDecision
      decision = open_decision a.authenticated.user_record

      priced :
          (r : Result (Option (ModelPricingRecord (floats.F))) × W)
          → continue
              (continue r λ pricing. pure (
                Quota.decide floats none
                  (floats.add (zero_cost floats) (
                    Quota.resolve_requested_usage floats none none
                      (Quota.build_usage_snapshot floats pricing none)))
                  (Quota.build_usage_snapshot floats pricing none)))
              (on_quota repr floats d a decision)
            ≡ continue r λ pricing. within_quota repr floats d a decision none
      priced (ok none, w') = refl
      priced (ok (some x), w') = refl
      priced (raised e, w') = refl
