-- ===== src/Admin/Budgets.antt =====
-- api/admin_budget_policies.py: an operator gives a user a budget.
pub mod Thresholds
use claude_code_proxy.Prelude.{
  String, Bool, true, false, not, Option, none, some, ◌≡◌, refl, if◌then◌else◌,
}
use claude_code_proxy.Prelude.Int.{ℤ, pos, ltℤ}
use claude_code_proxy.Exec.{Exec, Result, ok, raised, http, other, ◌>>=◌, ◌>>◌, pure, lift}
use claude_code_proxy.Domain.{BudgetPeriodType, BudgetMetricType, BudgetPolicyRecord, UserRecord}
use claude_code_proxy.Admin.{AdminIdentityStore, require_admin_write, configured}

pub record BudgetPolicyCreateRequest : Type 0 where
  pub id : String
  pub period_type : BudgetPeriodType
  pub metric_type : BudgetMetricType
  pub limit_value : ℤ
  pub soft_limit_percent : ℤ
  pub hard_limit_percent : ℤ

-- The validator of the request: a body that it refuses does not reach the endpoint.
unfoldable pub validate_percent_thresholds :
    BudgetPolicyCreateRequest → Result BudgetPolicyCreateRequest
validate_percent_thresholds request =
    if ltℤ request.hard_limit_percent request.soft_limit_percent
    then raised (other "ValueError")
    else if ltℤ (pos 100) request.hard_limit_percent
    then raised (other "ValueError")
    else ok request

pub record BudgetServices (W : Type 0) : Type 0 where
  pub get_user : String → Exec W (Option UserRecord)
  pub create_policy : BudgetPolicyRecord → Exec W (Unit {0})

unfoldable pub user_or_not_found : Option UserRecord → Result UserRecord
user_or_not_found none = raised (http 404 "User not found.")
user_or_not_found (some user) = ok user

unfoldable pub active_user : UserRecord → Result UserRecord
active_user user =
    if not user.is_active
    then raised (http 400 "Cannot create budget policy for inactive user.")
    else ok user

abbrev pub user_policy : String → BudgetPolicyCreateRequest → BudgetPolicyRecord
user_policy user_id request = record {
  id = request.id;
  scope_type = "user";
  scope_id = user_id;
  period_type = request.period_type;
  metric_type = request.metric_type;
  limit_value = request.limit_value;
  soft_limit_percent = request.soft_limit_percent;
  hard_limit_percent = request.hard_limit_percent;
  is_active = true;
}

module _ {W : Type 0} (s : BudgetServices W) where
  unfoldable pub create_user_policy : String → BudgetPolicyCreateRequest → Exec W BudgetPolicyRecord
  create_user_policy user_id request = do
    found ← s.get_user user_id
    user ← lift (user_or_not_found found)
    checked ← lift (active_user user)
    s.create_policy (user_policy user_id request)
    pure (user_policy user_id request)

-- The endpoint, with the body that the framework validates before it; the record is encoded as JSON by
-- `jsonable_encoder` of the framework.
module _ {W : Type 0} (repository : Option (AdminIdentityStore W))
    (service : Option (BudgetServices W)) where
  unfoldable pub create_user_budget_policy :
      Option String → String → BudgetPolicyCreateRequest → Exec W BudgetPolicyRecord
  create_user_budget_policy header user_id body = do
    payload ← lift (validate_percent_thresholds body)
    actor ← require_admin_write repository header
    s ← lift (configured "Budget policy service is not configured." service)
    create_user_policy s user_id payload
