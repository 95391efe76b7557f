-- ===== src/Router/Admission/Handler.antt =====
-- The handler of /v1/messages as a whole: nothing reaches Bedrock unless it is admitted.
use claude_code_proxy.Prelude.{String, Option, none, some, ◌≡◌, refl, ◌⊎◌, inl, inr}
use claude_code_proxy.Json.{Value, Fields, get_field_or, null}
use claude_code_proxy.Exec.{Exec, Exn, Result, ok, raised, continue, pure, lift}
use claude_code_proxy.Domain.{AuthenticatedRequestContext}
use claude_code_proxy.Resolver.{ResolvedModel}
use claude_code_proxy.Quota.{Floats}
use claude_code_proxy.Converse.Response.{fields_of}
use claude_code_proxy.Observability.{resolve_request_id}
use claude_code_proxy.Router.{
  ProxyDependencies, Reply, model_of, attempted, error_reply, or_failure, resolve_requested,
  authenticate_request,
}
use claude_code_proxy.Router.Messages.{Admission, serve, named}
use claude_code_proxy.Router.CreateMessage.{
  after_authentication, create_message, audit_unauthenticated, when_audited,
}
use claude_code_proxy.Audit.{AuditServices}
use claude_code_proxy.Router.Quiet.{
  Keeps, IsQuiet, pure-Keeps, lift-Keeps, bind-Keeps, authenticate_request-Keeps,
  resolve_requested-Keeps, audit_denial-Keeps, resolve_request_id-Keeps,
}
use claude_code_proxy.Router.Admission.{Denied, IsAdmitted, step, step_lift, on_resolved-Admitted}

map_left : {A B C : Type 0} → (A → B) → A ⊎ C → B ⊎ C
map_left f (inl a) = inl (f a)
map_left f (inr c) = inr c

module _ {W T : Type 0} (P : W → Type 0) (repr : Value → String) (floats : Floats)
    (d : ProxyDependencies W T (floats.F)) (quiet : IsQuiet P d) (header : Option String)
    (body : Value) where
  abbrev Outcome : Result (Reply T (floats.F)) × W → Type 0
  Outcome r = IsAdmitted repr floats d header body ⊎ Denied P r

  abbrev request_admission :
      String → T → AuthenticatedRequestContext → String × ResolvedModel → Fields → Admission T
  request_admission rid started_at authenticated resolved b = record {
    request_id = rid;
    started_at = started_at;
    body = b;
    authenticated = authenticated;
    requested_model = resolved.0;
    resolved_model = resolved.1;
  }

  serve-Outcome :
      (rid : String) (started_at : T) (authenticated : AuthenticatedRequestContext) (w w1 : W)
      → authenticate_request repr d header rid w ≡ (ok authenticated, w1)
      → P w1
      → Outcome (serve repr floats d rid started_at body authenticated w1)
  unfolding serve
  serve-Outcome rid started_at authenticated w w1 e p =
      step_lift P (model_of body) _ w1 p λ model m.
        step P (resolve_requested repr d model) _ w1 (resolve_requested-Keeps P repr d quiet model)
          p
          λ resolved w2 q p2. step_lift P (fields_of body) _ w2 p2 λ b f.
            let a = request_admission rid started_at authenticated resolved b in
            map_left
              (λ x. record {
                admission = a;
                model = model;
                authenticating = w;
                authenticated_at = w1;
                resolved_at = w2;
                by_authentication = e;
                by_body = f;
                by_model = m;
                by_resolver = q;
                admitted = x;
              })
              (on_resolved-Admitted P repr floats d quiet a w2 p2)

  recovered :
      (rid : String) (r : Result (Reply T (floats.F)) × W)
      → Outcome r
      → Outcome (continue (attempted r) λ served. pure (or_failure rid served))
  recovered rid r (inl x) = inl x
  recovered rid (ok reply, w) (inr x) = inr x
  recovered rid (raised e, w) (inr (p, t)) = inr (p, tt)

  audited :
      (rid : String) (error : Exn) (r : Result (Unit {0}) × W)
      → P r.1
      → Denied P (continue r λ u. pure (error_reply {T = T} {F = floats.F} rid error))
  audited rid error (ok u, w) p = (p, tt)
  audited rid error (raised x, w) p = (p, tt)

  when_audited-Keeps :
      (o : Option (AuditServices W (floats.F))) (m : Exec W (Unit {0}))
      → Keeps P m
      → Keeps P (when_audited o m)
  when_audited-Keeps none m h = pure-Keeps P tt
  when_audited-Keeps (some logger) m h = h

  audit-Keeps : (rid : String) → Keeps P (audit_unauthenticated repr floats d rid body)
  unfolding audit_unauthenticated
  audit-Keeps rid = when_audited-Keeps d.audit_logger _ (
      bind-Keeps P (lift (fields_of body)) _ (lift-Keeps P _) λ m.
        audit_denial-Keeps P repr d quiet rid "authentication_failed" none
          (named repr (get_field_or "model" null m)) none none)

  authenticated-Outcome :
      (rid : String) (started_at : T) (w w1 : W) (r : Result AuthenticatedRequestContext)
      → authenticate_request repr d header rid w ≡ (r, w1)
      → P w1
      → Outcome (after_authentication repr floats d rid started_at body r w1)
  unfolding after_authentication
  authenticated-Outcome rid started_at w w1 (raised error) e p = inr (
      audited rid error (audit_unauthenticated repr floats d rid body w1)
        ((audit-Keeps rid).run w1 p))
  authenticated-Outcome rid started_at w w1 (ok c) e p =
      recovered rid (serve repr floats d rid started_at body c w1)
        (serve-Outcome rid started_at c w w1 e p)

  -- Whatever the services answer and raise, a request reaches Bedrock only if it is admitted: either its
  -- key was authenticated, its model was resolved, and policy, quota and rate limit allowed it; or the
  -- reply is an error, and every property that the other services keep still holds, so that Bedrock
  -- was not called.
  pub create_message-IsAdmitted :
      (w : W)
      → P w
      → IsAdmitted repr floats d header body ⊎ Denied P (create_message repr floats d header body w)
  unfolding create_message
  create_message-IsAdmitted w p =
      step P (resolve_request_id d.request_scope) _ w (resolve_request_id-Keeps P repr d quiet) p
        λ rid w1 q p1. step P d.timer.perf_counter _ w1 quiet.counter p1 λ started_at w2 q2 p2.
          authenticated rid started_at w2 (authenticate_request repr d header rid w2) refl
            ((authenticate_request-Keeps P repr d quiet header rid).run w2 p2)
    where
      authenticated :
          (rid : String) (started_at : T) (w2 : W) (r : Result AuthenticatedRequestContext × W)
          → authenticate_request repr d header rid w2 ≡ r
          → P r.1
          → Outcome
              (continue (attempted r) (after_authentication repr floats d rid started_at body))
      authenticated rid started_at w2 (r, w3) e p = authenticated-Outcome rid started_at w2 w3 r e p
