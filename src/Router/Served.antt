-- ===== src/Router/Served.antt =====
-- Whose requests /v1/messages serves.
use claude_code_proxy.Prelude.{String, true, Option, ◌≡◌, inl, inr, []}
use claude_code_proxy.Json.{Value}
use claude_code_proxy.Exec.{ok}
use claude_code_proxy.Domain.{AuthenticatedRequestContext}
use claude_code_proxy.Auth.Context.{Trusted, authenticate-Trusted}
use claude_code_proxy.Policy.Decision.{evaluate-allowed}
use claude_code_proxy.Quota.{Floats}
use claude_code_proxy.Router.{
  ProxyDependencies, Reply, message, streaming, failure, authenticate_request,
}
use claude_code_proxy.Router.CreateMessage.{create_message}
use claude_code_proxy.Router.Quiet.{IsQuiet}
use claude_code_proxy.Router.Admission.{IsAdmitted, IsFailure}
use claude_code_proxy.Router.Admission.Handler.{create_message-IsAdmitted}

-- A reply from Bedrock.
abbrev pub IsServed : {T F : Type 0} → Reply T F → Type 0
IsServed (message v) = Unit {0}
IsServed (streaming s) = Unit {0}
IsServed (failure r) = ⊥

not_both : {T F : Type 0} (reply : Reply T F) → IsServed reply → IsFailure (ok reply) → ⊥
not_both (message v) s f = f
not_both (streaming r) s f = f
not_both (failure r) s f = s

module _ {W T : Type 0} (repr : Value → String) (floats : Floats)
    (d : ProxyDependencies W T (floats.F)) where
  -- The active user, with access to the proxy, whose active key the request carries.
  pub record IsOfUser (header : Option String) : Type 0 where
    pub request_id : String
    pub context : AuthenticatedRequestContext
    pub before : W
    pub after : W
    pub trusted :
        Trusted d.hash_virtual_key d.auth_repositories header request_id before after context
    pub user_is_active : context.user_record.is_active ≡ true
    pub user_has_access : context.user_record.proxy_access_enabled ≡ true

  of_admitted :
      (header : Option String) (body : Value)
      → IsAdmitted repr floats d header body
      → IsOfUser header
  unfolding authenticate_request
  of_admitted header body x =
      let a = x.admission in
      let (p, q, n, m) =
        (evaluate-allowed a.authenticated.user_record a.requested_model [] x.admitted.decision
            x.admitted.by_policy).0
          x.admitted.policy_allows in
      record {
        request_id = a.request_id;
        context = a.authenticated;
        before = x.authenticating;
        after = x.authenticated_at;
        trusted =
            authenticate-Trusted d.hash_virtual_key d.auth_repositories header a.request_id
              x.authenticating x.authenticated_at a.authenticated x.by_authentication;
        user_is_active = p;
        user_has_access = q;
      }

  -- A request that gets a message or a stream carries an active key of the ledger, whose user is active and
  -- has access to the proxy.
  pub create_message-IsOfUser :
      (header : Option String) (body : Value) (w w' : W) (reply : Reply T (floats.F))
      → create_message repr floats d header body w ≡ (ok reply, w')
      → IsServed reply
      → IsOfUser header
  create_message-IsOfUser header body w w' reply h s =
      elim (create_message-IsAdmitted (λ v. Unit {0}) repr floats d trivial header body w tt) [
        | inl x ↦ of_admitted header body x
        | inr (u, f) ↦ absurd (not_both reply s (rw h at f))
      ]
    where
      trivial : IsQuiet (λ v. Unit {0}) d
      trivial = record {
        keys = λ k. record { run = λ v u. tt };
        users = λ k. record { run = λ v u. tt };
        rules = record { run = λ v u. tt };
        routes = record { run = λ v u. tt };
        pricing = λ r e m. record { run = λ v u. tt };
        clock = record { run = λ v u. tt };
        limiter = λ l v u. tt;
        audits = λ l e. (
          record { run = λ v u. tt },
          record { run = λ v u. tt },
          λ r. record { run = λ v u. tt },
        );
        scope_read = record { run = λ v u. tt };
        scope_written = λ s. record { run = λ v u. tt };
        scope_generated = record { run = λ v u. tt };
        counter = record { run = λ v u. tt };
      }
