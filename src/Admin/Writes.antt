-- ===== src/Admin/Writes.antt =====
-- What the administration API changes, and for whom.
use claude_code_proxy.Prelude.{String, Option, some, [], ◌∷◌, ◌≡◌, refl, ◌⊎◌, inl, inr}
use claude_code_proxy.Exec.{Exec, Result, Result-cases, ok, raised, continue, ◌>>=◌, pure, lift}
use claude_code_proxy.Domain.{AdminIdentityRecord}
use claude_code_proxy.Admin.{
  AdminActor, AdminIdentityStore, role_of, get_admin_role, actor_with, principal_of,
  require_admin_role, require_admin_write,
}
use claude_code_proxy.Admin.Access.{IsActor, require_admin_role-IsActor, principal_of_ok}
use claude_code_proxy.Admin.VirtualKeys.{
  LifecycleServices, revoke_virtual_key, disable_virtual_key, rotate_virtual_key,
}
use claude_code_proxy.Admin.Budgets.{
  BudgetServices, BudgetPolicyCreateRequest, create_user_budget_policy, validate_percent_thresholds,
}
use claude_code_proxy.Admin.Models.{
  ModelMappingServices, ModelRouteUpdateRequest, PricingCatalogUpdateRequest, update_model_route,
  update_pricing_catalog,
}
use claude_code_proxy.Admin.Users.{ProvisioningServices, UserProvisioningRequest, create_user}

module _ {W : Type 0} (P : W → Type 0) (repository : Option (AdminIdentityStore W))
    (header : Option String) where
  -- An operator, whom the header names.
  pub record IsOperator : Type 0 where
    pub before : W
    pub after : W
    pub actor : AdminActor
    pub let_in : IsActor repository ("operator" ∷ []) header before after actor

  -- Nothing has changed, or an operator has asked for it.
  abbrev pub Unchanged : {A : Type 0} → Result A × W → Type 0
  Unchanged r = P r.1 ⊎ IsOperator

  -- Looking up an identity keeps `P`.
  abbrev pub Quiet : Type 0
  Quiet =
      (store : AdminIdentityStore W) (name : String) (w : W)
      → repository ≡ some store
      → P w
      → P (store name w).1

  module _ (quiet : Quiet) where
    require-Keeps : (w : W) → P w → P (require_admin_write repository header w).1
    unfolding require_admin_write require_admin_role get_admin_role
    require-Keeps w p = elim (Result-cases (principal_of repository header)) [
      | inr (x, e) ↦ rw e p
      | inl ((store, name), e) ↦ rw e (
          looked name (store name w)
            (quiet store name w (principal_of_ok repository header store name e).0 p))
    ]
      where
        looked :
            (name : String) (r : Result (Option AdminIdentityRecord) × W)
            → P r.1
            → P
                (continue
                  (continue r λ i. pure (role_of i))
                  λ role. lift (actor_with ("operator" ∷ []) name role)).1
        looked name (ok i, w') q = q
        looked name (raised x, w') q = q

    operator_role :
        (w w' : W) (actor : AdminActor)
        → require_admin_write repository header w ≡ (ok actor, w')
        → IsActor repository ("operator" ∷ []) header w w' actor
    unfolding require_admin_write
    operator_role w w' actor e =
        (require_admin_role-IsActor repository ("operator" ∷ []) header w w' actor).0 e

    guarded :
        {A : Type 0} (k : AdminActor → Exec W A) (w : W)
        → P w
        → Unchanged ((require_admin_write repository header >>= k) w)
    guarded k w p = go (require_admin_write repository header w) refl (require-Keeps w p)
      where
        go :
            (r : Result AdminActor × W)
            → require_admin_write repository header w ≡ r
            → P r.1
            → Unchanged (continue r k)
        go (raised x, w') e q = inl q
        go (ok actor, w') e q =
            inr (record {
              before = w;
              after = w';
              actor = actor;
              let_in = operator_role w w' actor e;
            })

    module _ {F : Type 0} (w : W) (p : P w) where
      -- Whatever the services do, no endpoint of the administration API that writes (the three of virtual keys,
      -- the budgets, the users, the routes and the prices) changes anything, unless its header names an
      -- active identity with the role `operator`: an auditor changes nothing.
      pub admin_writes_need_operator :
          (keys : Option (LifecycleServices W)) (budgets : Option (BudgetServices W))
          (users : Option (ProvisioningServices W)) (models : Option (ModelMappingServices W F))
          (id_ : String) (budget : BudgetPolicyCreateRequest) (user : UserProvisioningRequest)
          (route : ModelRouteUpdateRequest) (price : PricingCatalogUpdateRequest F)
          → Unchanged (revoke_virtual_key repository keys header id_ w)
            × Unchanged (disable_virtual_key repository keys header id_ w)
            × Unchanged (rotate_virtual_key repository keys header id_ w)
            × Unchanged (create_user_budget_policy repository budgets header id_ budget w)
            × Unchanged (create_user repository users header user w)
            × Unchanged (update_model_route repository models header id_ route w)
            × Unchanged (update_pricing_catalog repository models header id_ price w)
      unfolding revoke_virtual_key disable_virtual_key rotate_virtual_key create_user_budget_policy
          create_user update_model_route update_pricing_catalog
      admin_writes_need_operator keys budgets users models id_ budget user route price = (
        guarded _ w p,
        guarded _ w p,
        guarded _ w p,
        validated (validate_percent_thresholds budget) _,
        guarded _ w p,
        guarded _ w p,
        guarded _ w p,
      )
        where
          validated :
              {A : Type 0} (r : Result BudgetPolicyCreateRequest)
              (k : BudgetPolicyCreateRequest → AdminActor → Exec W A)
              → Unchanged
                  ((lift r >>= λ payload. require_admin_write repository header >>= k payload) w)
          validated (ok payload) k = guarded (k payload) w p
          validated (raised x) k = inl p
