-- ===== src/Admin/Operations.antt =====
-- api/internal_ops.py, api/admin_usage.py and api/health_router.py: the invalidation of a cache, the queries
-- of usage, and readiness.
use claude_code_proxy.Prelude.{
  ℕ, String, Bool, true, false, not, Option, none, some, List, [], ◌∷◌, str_eq, if◌then◌else◌,
}
use claude_code_proxy.Json.{Value, text, object}
use claude_code_proxy.Exec.{Exec, Result, ok, raised, http, ◌>>=◌, ◌>>◌, pure, lift}
use claude_code_proxy.Domain.{UsageEventRecord, AuditEventRecord}
use claude_code_proxy.VirtualKeys.{VirtualKeyCache}
use claude_code_proxy.Admin.{AdminIdentityStore, require_admin_read, configured}

-- `provided_token != expected_token`, of a header that may be missing
abbrev same_token : String → Option String → Bool
same_token expected none = false
same_token expected (some provided) = str_eq provided expected

unfoldable pub require_internal_token : Option String → Option String → Result (Unit {0})
require_internal_token none provided =
    raised (http 500 "Internal operations token is not configured.")
require_internal_token (some expected) provided =
    if not (same_token expected provided)
    then raised (http 403 "Internal access denied.")
    else ok tt

module _ {W : Type 0} where
  -- CacheInvalidationService
  unfoldable pub invalidate_user_cache : VirtualKeyCache W → String → Exec W (Unit {0})
  invalidate_user_cache virtual_key_cache user_id = virtual_key_cache.invalidate_user user_id

  unfoldable pub invalidate_cache :
      Option String → Option (VirtualKeyCache W) → Option String → String → Exec W Value
  invalidate_cache token service provided user_id = do
    allowed ← lift (require_internal_token token provided)
    virtual_key_cache ←
        lift (configured "Internal cache operations service is not configured." service)
    invalidate_user_cache virtual_key_cache user_id
    pure (object (("status", text "accepted") ∷ ("user_id", text user_id) ∷ []))

-- UsageQueryService: the filters are the user, the team, the model, and for events their type
pub record UsageQueries (W F : Type 0) : Type 0 where
  pub query_usage :
      Option String → Option String → Option String → Exec W (List (UsageEventRecord F))
  pub query_audit_events :
      Option String → Option String → Option String → Option String → Exec W (List AuditEventRecord)

-- The endpoints; the events are encoded as JSON, under "items", by the framework.
module _ {W F : Type 0} (repository : Option (AdminIdentityStore W))
    (service : Option (UsageQueries W F)) (header : Option String) where
  unfoldable pub list_usage :
      Option String → Option String → Option String → Exec W (List (UsageEventRecord F))
  list_usage user_id team_id model = do
    actor ← require_admin_read repository header
    s ← lift (configured "Usage query service is not configured." service)
    s.query_usage user_id team_id model

  unfoldable pub list_audit_events :
      Option String → Option String → Option String → Option String → Exec W (List AuditEventRecord)
  list_audit_events user_id team_id model event_type = do
    actor ← require_admin_read repository header
    s ← lift (configured "Usage query service is not configured." service)
    s.query_audit_events user_id team_id model event_type

-- all(check() for check in checks): the first check that fails is the last that is made
unfoldable pub all_ready : {W : Type 0} → List (Exec W Bool) → Exec W Bool
all_ready [] = pure true
all_ready (check ∷ checks) =
    check >>= λ passed. elim passed [ true ↦ all_ready checks | false ↦ pure false ]

-- The status and the body of /ready.
abbrev readiness : Bool → ℕ × Value
readiness true = (200, object (("status", text "ready") ∷ []))
readiness false = (503, object (("status", text "not_ready") ∷ []))

unfoldable pub ready : {W : Type 0} → List (Exec W Bool) → Exec W (ℕ × Value)
ready checks = do is_ready ← all_ready checks; pure (readiness is_ready)
