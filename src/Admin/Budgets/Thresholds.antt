-- ===== src/Admin/Budgets/Thresholds.antt =====
-- What holds of a budget that was created.
use claude_code_proxy.Prelude.{String, true, Option, some, [], ◌∷◌, ◌≡◌}
use claude_code_proxy.Prelude.Int.{pos, ◌≤ℤ◌}
use claude_code_proxy.Exec.{ok}
use claude_code_proxy.Domain.{BudgetPolicyRecord, UserRecord}
use claude_code_proxy.Admin.{AdminIdentityStore, AdminActor}
use claude_code_proxy.Admin.Access.{IsActor}
use claude_code_proxy.Admin.Budgets.{BudgetPolicyCreateRequest, BudgetServices, user_policy}

pub record IsThresholds (request : BudgetPolicyCreateRequest) : Type 0 where
  pub soft_below_hard : request.soft_limit_percent ≤ℤ request.hard_limit_percent
  pub hard_below_all : request.hard_limit_percent ≤ℤ pos 100

module _ {W : Type 0} (repository : Option (AdminIdentityStore W)) (s : BudgetServices W)
    (header : Option String) (user_id : String) (body : BudgetPolicyCreateRequest) where
  -- A budget that was created: an operator asked for it, its user is known and active, and it is the one of
  -- the request, whose percentages are in order.
  pub record IsCreated (policy : BudgetPolicyRecord) (w w' : W) : Type 0 where
    pub actor : AdminActor
    pub user : UserRecord
    pub let_in_at : W
    pub found_at : W
    pub thresholds : IsThresholds body
    pub by_operator : IsActor repository ("operator" ∷ []) header w let_in_at actor
    pub user_known : s.get_user user_id let_in_at ≡ (ok (some user), found_at)
    pub user_active : user.is_active ≡ true
    pub is_policy : policy ≡ user_policy user_id body
    pub kept : s.create_policy policy found_at ≡ (ok tt, w')
