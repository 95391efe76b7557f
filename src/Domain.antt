-- ===== src/Domain.antt =====
-- models/domain.py and models/context.py: the records that the components exchange.
-- A `datetime` is a number of microseconds; an `int` that a store may hold with any sign is a ℤ.
use claude_code_proxy.Prelude.{
  ℕ, String, Bool, true, false, Option, none, some, List, str_eq, if◌then◌else◌,
}
use claude_code_proxy.Prelude.Int.{ℤ}
use claude_code_proxy.Json.{Value}

pub data VirtualKeyStatus : Type 0 where
  active disabled revoked : VirtualKeyStatus

-- VirtualKeyStatus.value
unfoldable pub status_value : VirtualKeyStatus → String
status_value active = "active"
status_value disabled = "disabled"
status_value revoked = "revoked"

-- VirtualKeyStatus(text): `none` is the ValueError
unfoldable pub status_of_value : String → Option VirtualKeyStatus
status_of_value s =
    if str_eq s "active"
    then some active
    else if str_eq s "disabled"
    then some disabled
    else if str_eq s "revoked"
    then some revoked
    else none

abbrev pub is_active_status : VirtualKeyStatus → Bool
is_active_status active = true
is_active_status _ = false

pub data TokenIssueSource : Type 0 where
  cache reused issued : TokenIssueSource

unfoldable pub source_value : TokenIssueSource → String
source_value cache = "cache"
source_value reused = "reused"
source_value issued = "issued"

pub data BudgetPeriodType : Type 0 where
  day month : BudgetPeriodType

pub data BudgetMetricType : Type 0 where
  tokens cost_usd : BudgetMetricType

pub record IdentityMapping : Type 0 where
  pub username : String
  pub user_id : String
  pub identity_provider : String
  pub created_at : ℕ

pub record UserRecord : Type 0 where
  pub id : String
  pub email : String
  pub display_name : String
  pub department : Option String
  pub cost_center : Option String
  pub groups : List String
  pub proxy_access_enabled : Bool
  pub is_active : Bool
  pub created_at : ℕ
  pub updated_at : ℕ

pub record VirtualKeyRecord : Type 0 where
  pub id : String
  pub user_id : String
  pub key_hash : String
  pub encrypted_key_blob : String
  pub key_prefix : String
  pub status : VirtualKeyStatus
  pub created_at : ℕ
  pub expires_at : Option ℕ
  pub revoked_at : Option ℕ
  pub last_used_at : Option ℕ

pub record VirtualKeyCacheEntry : Type 0 where
  pub user_id : String
  pub virtual_key_id : String
  pub encrypted_key_ref : String
  pub key_prefix : String
  pub status : VirtualKeyStatus
  pub ttl : ℤ

pub record AdminIdentityRecord : Type 0 where
  pub principal_id : String
  pub role : String
  pub is_active : Bool
  pub created_at : ℕ
  pub updated_at : ℕ

pub record TokenIssueResult : Type 0 where
  pub virtual_key : String
  pub user_id : String
  pub key_id : String
  pub key_prefix : String
  pub status : VirtualKeyStatus
  pub source : TokenIssueSource
  pub expires_at : Option ℕ

pub record PolicyRecord : Type 0 where
  pub id : String
  pub scope_type : String
  pub scope_id : String
  pub rule_type : String
  pub rule_value : String
  pub is_active : Bool

pub record BudgetPolicyRecord : Type 0 where
  pub id : String
  pub scope_type : String
  pub scope_id : String
  pub period_type : BudgetPeriodType
  pub metric_type : BudgetMetricType
  pub limit_value : ℤ
  pub soft_limit_percent : ℤ
  pub hard_limit_percent : ℤ
  pub is_active : Bool

pub record ModelAliasRuleRecord : Type 0 where
  pub id : String
  pub pattern_ : String
  pub logical_model : String
  pub priority : ℤ
  pub is_active : Bool

pub record ModelRouteRecord : Type 0 where
  pub id : String
  pub logical_model : String
  pub provider : String
  pub bedrock_api_route : String
  pub bedrock_model_id : Option String
  pub inference_profile_id : Option String
  pub supports_native_structured_output : Bool
  pub supports_reasoning : Bool
  pub supports_prompt_cache_ttl : Bool
  pub supports_disable_parallel_tool_use : Bool
  pub priority : ℤ
  pub is_active : Bool

-- `F` is the type of the costs, Python's float.
pub record ModelPricingRecord (F : Type 0) : Type 0 where
  pub id : String
  pub provider : String
  pub model_id : String
  pub input_cost_per_million : F
  pub output_cost_per_million : F
  pub cache_write_input_cost_per_million : F
  pub cache_read_input_cost_per_million : F
  pub currency : String
  pub effective_from : Option ℕ
  pub effective_to : Option ℕ

pub record UsageEventRecord (F : Type 0) : Type 0 where
  pub id : String
  pub request_id : String
  pub user_id : String
  pub user_email : Option String
  pub requested_model : String
  pub resolved_model : Option String
  pub pricing_catalog_id : Option String
  pub input_tokens : ℤ
  pub output_tokens : ℤ
  pub total_tokens : ℤ
  pub cache_write_input_tokens : ℤ
  pub cache_read_input_tokens : ℤ
  pub cache_details : Value
  pub estimated_input_cost_usd : F
  pub estimated_output_cost_usd : F
  pub estimated_cache_write_cost_usd : F
  pub estimated_cache_read_cost_usd : F
  pub estimated_total_cost_usd : F
  pub latency_ms : Option ℕ
  pub team_id : Option String
  pub created_at : ℕ

pub record AuditEventRecord : Type 0 where
  pub id : String
  pub request_id : String
  pub event_type : String
  pub actor_user_id : Option String
  pub actor_user_email : Option String
  pub decision : String
  pub requested_model : Option String
  pub resolved_model : Option String
  pub denial_reason : Option String
  pub policy_result : Option Value
  pub team_id : Option String
  pub created_at : ℕ

pub record UserContext : Type 0 where
  pub user_id : String
  pub email : Option String
  pub groups : List String
  pub department : Option String

pub record RequestContext : Type 0 where
  pub request_id : String
  pub user : Option UserContext

pub record AuthenticatedRequestContext : Type 0 where
  pub request : RequestContext
  pub user_record : UserRecord
  pub virtual_key_id : String
  pub key_hash : String
  pub key_prefix : String
