-- ===== src/Router/Quiet.antt =====
-- A property of the world that every service of the router keeps but the client of Bedrock.
use claude_code_proxy.Prelude.{
  String, Option, none, some, ◌≡◌, inl, inr, Bool-cases, Option-cases, str_eq,
}
use claude_code_proxy.Json.{Value, text, null, bool, int, real, list, dict}
use claude_code_proxy.Exec.{Exec, Exn, Result, ok, raised, continue, ◌>>=◌, ◌>>◌, pure, raise, lift}
use claude_code_proxy.Domain.{
  AuthenticatedRequestContext, AuditEventRecord, ModelPricingRecord, VirtualKeyRecord, UserRecord,
  ModelAliasRuleRecord, is_active_status,
}
use claude_code_proxy.Auth.{authenticate, with_record, with_user, extract_virtual_key}
use claude_code_proxy.Resolver.{resolve, with_rule, ResolvedModel, find_alias_rule}
use claude_code_proxy.Policy.{PolicyDecision}
use claude_code_proxy.Text.{strip}
use claude_code_proxy.RateLimiter.{InMemoryRateLimiter}
use claude_code_proxy.Audit.{AuditServices, record_denial, actor_of}
use claude_code_proxy.Observability.{resolve_request_id, kept_request_id}
use claude_code_proxy.Router.{
  ProxyDependencies, authenticate_request, resolve_requested, check_rate, audit_denial,
  refuse_model,
}

-- An action that keeps `P`, also when it raises.
pub record Keeps {W A : Type 0} (P : W → Type 0) (m : Exec W A) : Type 0 where
  pub run : (w : W) → P w → P (m w).1

pub pure-Keeps : {W A : Type 0} (P : W → Type 0) (a : A) → Keeps P (pure a)
pure-Keeps P a = record { run = λ w p. p }

pub raise-Keeps : {W A : Type 0} (P : W → Type 0) (e : Exn) → Keeps {A = A} P (raise e)
raise-Keeps P e = record { run = λ w p. p }

pub lift-Keeps : {W A : Type 0} (P : W → Type 0) (r : Result A) → Keeps P (lift r)
lift-Keeps P r = record { run = λ w p. p }

pub bind-Keeps :
    {W A B : Type 0} (P : W → Type 0) (m : Exec W A) (f : A → Exec W B)
    → Keeps P m
    → ((a : A) → Keeps P (f a))
    → Keeps P (m >>= f)
bind-Keeps {W} {A} {B} P m f h k = record { run = λ w p. continued (m w) (h.run w p) }
  where
    continued : (r : Result A × W) → P r.1 → P (continue r f).1
    continued (ok a, w) p = (k a).run w p
    continued (raised e, w) p = p

pub record IsQuiet {W T F : Type 0} (P : W → Type 0) (d : ProxyDependencies W T F) : Type 0 where
  pub keys : (hash : String) → Keeps P (d.auth_repositories.get_key_by_hash hash)
  pub users : (id_ : String) → Keeps P (d.auth_repositories.get_user id_)
  pub rules : Keeps P (d.model_repositories.list_alias_rules)
  pub routes : Keeps P (d.model_repositories.list_model_routes)
  pub pricing :
      (repository : String → Exec W (Option (ModelPricingRecord F)))
      → d.get_active_pricing ≡ some repository
      → (model : String) → Keeps P (repository model)
  pub clock : Keeps P d.clock
  pub limiter : (l : InMemoryRateLimiter) (w : W) → P w → P (d.with_limiter l w)
  pub audits :
      (logger : AuditServices W F)
      → d.audit_logger ≡ some logger
      → Keeps P logger.event_id_generator
        × Keeps P logger.clock
        × ((r : AuditEventRecord) → Keeps P (logger.record_audit r))
  pub scope_read : Keeps P (d.request_scope.state_request_id)
  pub scope_written : (s : String) → Keeps P (d.request_scope.set_state_request_id s)
  pub scope_generated : Keeps P (d.request_scope.request_id_generator)
  pub counter : Keeps P (d.timer.perf_counter)

module _ {W T F : Type 0} (P : W → Type 0) (repr : Value → String) (d : ProxyDependencies W T F)
    (quiet : IsQuiet P d) where
  with_record-Keeps :
      (rid : String) (o : Option VirtualKeyRecord)
      → Keeps P (with_record d.hash_virtual_key d.auth_repositories rid o)
  unfolding with_record with_user
  with_record-Keeps rid none = raise-Keeps P _
  with_record-Keeps rid (some r) = elim (Bool-cases (is_active_status r.status)) [
    | inl b ↦
        rw b (bind-Keeps P (d.auth_repositories.get_user r.user_id) _ (quiet.users r.user_id) owner)
    | inr b ↦ rw b (raise-Keeps P _)
  ]
    where
      owner :
          (o : Option UserRecord)
          → Keeps P (with_user d.hash_virtual_key d.auth_repositories rid r o)
      owner none = raise-Keeps P _
      owner (some user) = pure-Keeps P _

  pub authenticate_request-Keeps :
      (header : Option String) (rid : String) → Keeps P (authenticate_request repr d header rid)
  unfolding authenticate_request authenticate
  authenticate_request-Keeps header rid =
      bind-Keeps P (lift (extract_virtual_key header rid)) _ (lift-Keeps P _) λ key.
        bind-Keeps P (d.auth_repositories.get_key_by_hash (d.hash_virtual_key key)) _
          (quiet.keys (d.hash_virtual_key key)) (with_record-Keeps rid)

  with_rule-Keeps :
      (model : String) (o : Option ModelAliasRuleRecord)
      → Keeps P (with_rule d.model_repositories model o)
  unfolding with_rule
  with_rule-Keeps model none = lift-Keeps P _
  with_rule-Keeps model (some rule) =
      bind-Keeps P d.model_repositories.list_model_routes _ quiet.routes λ routes. lift-Keeps P _

  resolve-Keeps : (model : String) → Keeps P (resolve d.model_repositories model)
  unfolding resolve
  resolve-Keeps model =
      bind-Keeps P d.model_repositories.list_alias_rules _ quiet.rules
        λ rules. with_rule-Keeps model (find_alias_rule rules model)

  refused :
      (v : Value)
      → Keeps {A = String × ResolvedModel} P (
          d.model_repositories.list_alias_rules >>= λ rules.
          lift (refuse_model repr d v rules) >>= λ resolved. pure (repr v, resolved))
  refused v = bind-Keeps P d.model_repositories.list_alias_rules _ quiet.rules λ rules.
      bind-Keeps P (lift (refuse_model repr d v rules)) _ (lift-Keeps P _) λ r. pure-Keeps P _

  pub resolve_requested-Keeps : (v : Value) → Keeps P (resolve_requested repr d v)
  unfolding resolve_requested
  resolve_requested-Keeps (text s) =
      bind-Keeps P (resolve d.model_repositories s) _ (resolve-Keeps s) λ r. pure-Keeps P _
  resolve_requested-Keeps null = refused null
  resolve_requested-Keeps (bool b) = refused (bool b)
  resolve_requested-Keeps (int n) = refused (int n)
  resolve_requested-Keeps (real r) = refused (real r)
  resolve_requested-Keeps (list vs) = refused (list vs)
  resolve_requested-Keeps (dict m) = refused (dict m)

  pub check_rate-Keeps : (user : String) → Keeps P (check_rate repr d user)
  unfolding check_rate
  check_rate-Keeps user =
      bind-Keeps P d.clock _ quiet.clock λ now. record { run = λ w p. quiet.limiter _ w p }

  pub audit_denial-Keeps :
      (rid reason : String) (authenticated : Option AuthenticatedRequestContext)
      (model resolved : Option String) (decision : Option PolicyDecision)
      → Keeps P (audit_denial repr d rid reason authenticated model resolved decision)
  unfolding audit_denial record_denial
  audit_denial-Keeps rid reason authenticated model resolved decision =
      elim (Option-cases d.audit_logger) [
        | inl e ↦ rw e (pure-Keeps P tt)
        | inr (logger, e) ↦ rw e (recorded logger (quiet.audits logger e))
      ]
    where
      recorded :
          (logger : AuditServices W F)
          → Keeps P logger.event_id_generator
            × Keeps P logger.clock
            × ((r : AuditEventRecord) → Keeps P (logger.record_audit r))
          → Keeps P (record_denial logger rid reason authenticated model resolved decision)
      recorded logger (ids, clock, records) = bind-Keeps P logger.event_id_generator _ ids λ i.
          bind-Keeps P (lift (actor_of logger authenticated)) _ (lift-Keeps P _)
            λ actor. bind-Keeps P logger.clock _ clock λ now. records _

  generated : Keeps P (
      d.request_scope.request_id_generator >>= λ rid.
      d.request_scope.set_state_request_id rid >> pure rid)
  generated = bind-Keeps P d.request_scope.request_id_generator _ quiet.scope_generated λ rid.
      bind-Keeps P (d.request_scope.set_state_request_id rid) _ (quiet.scope_written rid)
        λ u. pure-Keeps P _

  kept : (v : Value) → Keeps P (kept_request_id d.request_scope v)
  unfolding kept_request_id
  kept (text s) = elim (Bool-cases (str_eq (strip s) "")) [
    | inl b ↦ rw b generated
    | inr b ↦ rw b (pure-Keeps P _)
  ]
  kept null = generated
  kept (bool b) = generated
  kept (int n) = generated
  kept (real r) = generated
  kept (list vs) = generated
  kept (dict m) = generated

  pub resolve_request_id-Keeps : Keeps P (resolve_request_id d.request_scope)
  unfolding resolve_request_id
  resolve_request_id-Keeps = bind-Keeps P d.request_scope.state_request_id _ quiet.scope_read kept
