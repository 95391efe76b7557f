-- ===== src/Router/Admission.antt =====
-- Which requests reach Bedrock: those that every check has admitted.
pub mod Handler
use claude_code_proxy.Prelude.{
  ℕ, String, Bool, true, false, Option, none, some, List, [], ◌≡◌, refl, ◌⊎◌, inl, inr, Bool-cases,
  Option-cases, str_eq,
}
use claude_code_proxy.Json.{Value, Fields, get_field_or, null}
use claude_code_proxy.Errors.{ServiceError}
use claude_code_proxy.Exec.{
  Exec, Exn, Result, ok, raised, continue, ◌>>=◌, pure, raise, lift, service,
}
use claude_code_proxy.Domain.{AuthenticatedRequestContext, UserContext, ModelPricingRecord}
use claude_code_proxy.Resolver.{ResolvedModel}
use claude_code_proxy.Policy.{PolicyDecision}
use claude_code_proxy.Policy as Policy
use claude_code_proxy.Quota.{
  Floats, QuotaDecision, UsageCostSnapshot, get_active_pricing, zero_cost,
}
use claude_code_proxy.Quota as Quota
use claude_code_proxy.RateLimiter.{RateLimitDecision}
use claude_code_proxy.Audit.{user_of}
use claude_code_proxy.Converse.Response.{fields_of}
use claude_code_proxy.Converse.Request.Build.{ConverseRequest, build_converse_request, first_truthy}
use claude_code_proxy.Observability.{resolve_request_id}
use claude_code_proxy.Router.{
  ProxyDependencies, Reply, message, streaming, failure, model_of, attempt, attempted, error_reply,
  or_failure, resolve_requested, authenticate_request, check_rate, audit_denial,
}
use claude_code_proxy.Router.Messages.{
  Admission, deny, call_bedrock, forward, on_rate, within_quota, within_policy, on_quota, on_policy,
  gate, on_resolved, serve, blocked_error, limited_error,
}
use claude_code_proxy.Router.CreateMessage.{
  after_authentication, create_message, audit_unauthenticated,
}
use claude_code_proxy.Router.Quiet.{
  Keeps, IsQuiet, pure-Keeps, lift-Keeps, bind-Keeps, authenticate_request-Keeps,
  resolve_requested-Keeps, check_rate-Keeps, audit_denial-Keeps, resolve_request_id-Keeps,
}

-- A reply that does not come from Bedrock; an exception is none.
abbrev pub IsFailure : {T F : Type 0} → Result (Reply T F) → Type 0
IsFailure (ok (message v)) = ⊥
IsFailure (ok (streaming s)) = ⊥
IsFailure (ok (failure r)) = Unit {0}
IsFailure (raised e) = Unit {0}

module _ {W T : Type 0} (repr : Value → String) (floats : Floats)
    (d : ProxyDependencies W T (floats.F)) where
  -- The steps that admit a request, each in the world that it was taken in.
  pub record Admitted (a : Admission T) (w : W) : Type 0 where
    pub decision : PolicyDecision
    pub quota : QuotaDecision (floats.F)
    pub user : UserContext
    pub rate : RateLimitDecision
    pub request : ConverseRequest
    pub before_rate : W
    pub after_rate : W
    pub by_policy : Policy.evaluate a.authenticated.user_record a.requested_model [] ≡ ok decision
    pub policy_allows : decision.allowed ≡ true
    pub by_quota :
        Quota.evaluate floats d.get_active_pricing []
          (zero_cost floats)
          none
          a.resolved_model.bedrock_model_id
          none
          w
        ≡ (ok quota, before_rate)
    pub quota_allows : quota.allowed ≡ true
    pub by_user : user_of a.authenticated ≡ ok user
    pub by_rate : check_rate repr d user.user_id before_rate ≡ (ok rate, after_rate)
    pub rate_allows : rate.allowed ≡ true
    pub built : build_converse_request repr a.body a.resolved_model ≡ ok request

  -- A request of this body that was authenticated, with a model that was resolved, and then admitted.
  pub record IsAdmitted (header : Option String) (body : Value) : Type 0 where
    pub admission : Admission T
    pub model : Value
    pub authenticating : W
    pub authenticated_at : W
    pub resolved_at : W
    pub by_authentication :
        authenticate_request repr d header admission.request_id authenticating
        ≡ (ok admission.authenticated, authenticated_at)
    pub by_body : fields_of body ≡ ok admission.body
    pub by_model : model_of body ≡ ok model
    pub by_resolver :
        resolve_requested repr d model authenticated_at
        ≡ (ok (admission.requested_model, admission.resolved_model), resolved_at)
    pub admitted : Admitted admission resolved_at

-- `P` still holds, and the reply is not from Bedrock.
abbrev pub Denied : {W T F : Type 0} → (W → Type 0) → Result (Reply T F) × W → Type 0
Denied P r = P r.1 × IsFailure r.0

module _ {W T F : Type 0} (P : W → Type 0) where
  -- One step of a handler: an exception is denied, and what returns goes on.
  pub step :
      {A E : Type 0} (m : Exec W A) (f : A → Exec W (Reply T F)) (w : W)
      → Keeps P m
      → P w
      → ((a : A) (w' : W) → m w ≡ (ok a, w') → P w' → E ⊎ Denied P (f a w'))
      → E ⊎ Denied P ((m >>= f) w)
  step {A = A} {E = E} m f w h p k = go (m w) refl (h.run w p)
    where
      go : (r : Result A × W) → m w ≡ r → P r.1 → E ⊎ Denied P (continue r f)
      go (ok a, w') e q = k a w' e q
      go (raised x, w') e q = inr (q, tt)

  pub step_lift :
      {A E : Type 0} (r : Result A) (f : A → Exec W (Reply T F)) (w : W)
      → P w
      → ((a : A) → r ≡ ok a → E ⊎ Denied P (f a w))
      → E ⊎ Denied P ((lift r >>= f) w)
  step_lift (ok a) f w p k = k a refl
  step_lift (raised x) f w p k = inr (p, tt)

  through :
      {E : Type 0} (b : Bool) (go stop : Exec W (Reply T F)) (w : W)
      → (b ≡ true → E ⊎ Denied P (go w))
      → Denied P (stop w)
      → E ⊎ Denied P (gate b go stop w)
  through true go stop w g s = g refl
  through false go stop w g s = inr s

module _ {W T : Type 0} (P : W → Type 0) (repr : Value → String) (floats : Floats)
    (d : ProxyDependencies W T (floats.F)) (quiet : IsQuiet P d) where
  pricing-Keeps :
      (model : Option String) → Keeps P (get_active_pricing floats d.get_active_pricing model)
  unfolding get_active_pricing
  pricing-Keeps model = elim (Option-cases d.get_active_pricing) [
    | inl e ↦ rw e (pure-Keeps P _)
    | inr (repository, e) ↦ rw e (priced repository e model)
  ]
    where
      priced :
          (repository : String → Exec W (Option (ModelPricingRecord (floats.F))))
          → d.get_active_pricing ≡ some repository
          → (model : Option String) → Keeps P (get_active_pricing floats (some repository) model)
      priced repository e none = pure-Keeps P _
      priced repository e (some model) = quiet.pricing repository e model

  quota-Keeps :
      (model : Option String)
      → Keeps P (Quota.evaluate floats d.get_active_pricing [] (zero_cost floats) none model none)
  unfolding Quota.evaluate
  quota-Keeps model =
      bind-Keeps P (get_active_pricing floats d.get_active_pricing model) _ (pricing-Keeps model)
        λ p. pure-Keeps P _

  deny-Denied :
      (a : Admission T) (decision : PolicyDecision) (reason : String) (error : ServiceError) (w : W)
      → P w
      → Denied P (deny repr floats d a decision reason error w)
  unfolding deny
  deny-Denied a decision reason error w p =
      replied
        (audit_denial repr d a.request_id reason (some a.authenticated) (some a.requested_model)
          a.resolved_model.bedrock_model_id (some decision) w)
        ((audit_denial-Keeps P repr d quiet a.request_id reason (some a.authenticated)
            (some a.requested_model) a.resolved_model.bedrock_model_id (some decision)).run
          w p)
    where
      replied :
          (r : Result (Unit {0}) × W)
          → P r.1
          → Denied P (
              continue r
                λ u. pure (error_reply {T = T} {F = floats.F} a.request_id (service error)))
      replied (ok u, w') q = (q, tt)
      replied (raised x, w') q = (q, tt)

  module _ (a : Admission T) (w0 : W) where
    forward-Admitted :
        (decision : PolicyDecision) (snapshot : Option (UsageCostSnapshot (floats.F))) (w : W)
        → P w
        → ((r : ConverseRequest)
            → build_converse_request repr a.body a.resolved_model ≡ ok r
            → Admitted repr floats d a w0)
        → Admitted repr floats d a w0 ⊎ Denied P (forward repr floats d a decision snapshot w)
    unfolding forward
    forward-Admitted decision snapshot w p k =
        step_lift P (build_converse_request repr a.body a.resolved_model) _ w p λ r e. inl (k r e)

    within_quota-Admitted :
        (decision : PolicyDecision) (snapshot : Option (UsageCostSnapshot (floats.F))) (w : W)
        → P w
        → ((user : UserContext) (rate : RateLimitDecision) (w' : W) (r : ConverseRequest)
            → user_of a.authenticated ≡ ok user
            → check_rate repr d user.user_id w ≡ (ok rate, w')
            → rate.allowed ≡ true
            → build_converse_request repr a.body a.resolved_model ≡ ok r
            → Admitted repr floats d a w0)
        → Admitted repr floats d a w0 ⊎ Denied P (within_quota repr floats d a decision snapshot w)
    unfolding within_quota on_rate
    within_quota-Admitted decision snapshot w p k =
        step_lift P (user_of a.authenticated) _ w p λ user u.
          step P (check_rate repr d user.user_id) _ w (check_rate-Keeps P repr d quiet user.user_id)
            p
            λ rate w' q p'.
              through P rate.allowed _ _ w'
                (λ b. forward-Admitted decision snapshot w' p' λ r e. k user rate w' r u q b e)
                (deny-Denied a decision _ _ w' p')

    pub on_resolved-Admitted :
        P w0 → Admitted repr floats d a w0 ⊎ Denied P (on_resolved repr floats d a w0)
    unfolding on_resolved on_policy within_policy on_quota
    on_resolved-Admitted p =
        step_lift P (Policy.evaluate a.authenticated.user_record a.requested_model []) _ w0 p
          λ decision e.
            through P decision.allowed _ _ w0
              (λ b.
                step P
                  (Quota.evaluate floats d.get_active_pricing [] (zero_cost floats) none
                    a.resolved_model.bedrock_model_id none)
                  _ w0 (quota-Keeps a.resolved_model.bedrock_model_id) p
                  λ quota w1 q p1.
                    through P quota.allowed _ _ w1
                      (λ c.
                        within_quota-Admitted decision quota.usage_snapshot w1 p1
                          λ user rate w2 r u g h l. record {
                            decision = decision;
                            quota = quota;
                            user = user;
                            rate = rate;
                            request = r;
                            before_rate = w1;
                            after_rate = w2;
                            by_policy = e;
                            policy_allows = b;
                            by_quota = q;
                            quota_allows = c;
                            by_user = u;
                            by_rate = g;
                            rate_allows = h;
                            built = l;
                          })
                      (deny-Denied a decision _ _ w1 p1))
              (deny-Denied a decision _ _ w0 p)
