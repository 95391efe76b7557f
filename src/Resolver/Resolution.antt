-- ===== src/Resolver/Resolution.antt =====
-- What `resolve` returns or raises, stated by the priorities of the rules and routes.
use claude_code_proxy.Prelude.{
  String, Bool, none, some, List, filter, best, true, false, ◌≡◌, ◌≢◌, refl, inl, inr, In, arith,
  Bool-cases, Option-cases, best-In, best-top, best-none, In-filter, In_of_filter, str_eq,
  str_eq_iff,
}
use mathlib.Core.Path.{subst}
use claude_code_proxy.Prelude.Int.{ltℤ, ◌≤ℤ◌, ℤ}
use claude_code_proxy.Exec.{Result, ok}
use claude_code_proxy.Domain.{ModelAliasRuleRecord, ModelRouteRecord}
use claude_code_proxy.Resolver.{
  ModelRepositories, ResolvedModel, resolve, with_rule, resolved, finish, unknown_model, no_route,
  unsupported_route, find_alias_rule, find_route, alias_matches, route_matches,
}

-- An element that passes a test, with the highest priority among those that do.
pub record IsTop {ℓ} {A : Type ℓ} (passes : A → Bool) (priority : A → ℤ) (xs : List A) (a : A)
    : Type ℓ where
  pub member : In a xs
  pub passed : passes a ≡ true
  pub highest : (b : A) → In b xs → passes b ≡ true → priority b ≤ℤ priority a

module _ {ℓ} {A : Type ℓ} (passes : A → Bool) (priority : A → ℤ) (xs : List A) where
  best-IsTop :
      (a : A)
      → best (λ x y. ltℤ (priority y) (priority x)) (filter passes xs) ≡ some a
      → IsTop passes priority xs a
  best-IsTop a h =
      let found = In_of_filter passes a xs (best-In _ (filter passes xs) a h) in
      record {
        member = found.0;
        passed = found.1;
        highest = λ b i t.
            best-top (λ x y. ltℤ (priority y) (priority x)) (λ x y. priority y ≤ℤ priority x)
              (λ x. omega arith) (λ x y z p q. omega arith) (λ x y p. ground arith)
              (λ x y p. ground arith) (filter passes xs) a b h (In-filter passes b i t);
      }

  best_nothing :
      best (λ x y. ltℤ (priority y) (priority x)) (filter passes xs) ≡ none
      → (b : A) → In b xs
      → passes b ≡ false
  best_nothing h b i = elim (Bool-cases (passes b)) [
    | inr e ↦ e
    | inl e ↦ elim (subst (In b) (best-none _ (filter passes xs) h) (In-filter passes b i e)) [ ]
  ]

abbrev TopRule : String → List ModelAliasRuleRecord → ModelAliasRuleRecord → Type 0
TopRule model = IsTop (alias_matches model) (λ r. r.priority)

abbrev TopRoute : String → List ModelRouteRecord → ModelRouteRecord → Type 0
TopRoute logical = IsTop (route_matches logical) (λ r. r.priority)

-- The outcomes of a resolution, each with what holds of the rules and the routes.
pub data Resolution (model : String) (rules : List ModelAliasRuleRecord)
    (routes : List ModelRouteRecord) (r : Result ResolvedModel) : Type 0 where
  no_rule :
      ((rule : ModelAliasRuleRecord) → In rule rules → alias_matches model rule ≡ false)
      → r ≡ unknown_model model
      → Resolution model rules routes r
  without_route :
      (rule : ModelAliasRuleRecord)
      → TopRule model rules rule
      → ((route : ModelRouteRecord)
          → In route routes
          → route_matches rule.logical_model route ≡ false)
      → r ≡ no_route model rule.logical_model
      → Resolution model rules routes r
  other_api :
      (rule : ModelAliasRuleRecord) (route : ModelRouteRecord)
      → TopRule model rules rule
      → TopRoute rule.logical_model routes route
      → route.bedrock_api_route ≢ "converse"
      → r ≡ unsupported_route model rule.logical_model route.bedrock_api_route
      → Resolution model rules routes r
  found :
      (rule : ModelAliasRuleRecord) (route : ModelRouteRecord)
      → TopRule model rules rule
      → TopRoute rule.logical_model routes route
      → route.bedrock_api_route ≡ "converse"
      → r ≡ ok (resolved model rule route)
      → Resolution model rules routes r

finish-Resolution :
    (model : String) (rules : List ModelAliasRuleRecord) (routes : List ModelRouteRecord)
    (rule : ModelAliasRuleRecord)
    → TopRule model rules rule
    → Resolution model rules routes (finish model rule (find_route routes rule.logical_model))
unfolding find_route
finish-Resolution model rules routes rule top =
    elim (Option-cases (find_route routes rule.logical_model)) [
      | inl e ↦ rw e (without_route rule top (best_nothing _ (λ r. r.priority) routes e) refl)
      | inr (route, e) ↦
          let top_route : TopRoute rule.logical_model routes route =
            best-IsTop _ (λ r. r.priority) routes route e in
          rw e (elim (Bool-cases (str_eq route.bedrock_api_route "converse")) [
            | inl c ↦ rw c (found rule route top top_route ((str_eq_iff _ "converse").0 c) refl)
            | inr c ↦ rw c (
                other_api rule route top top_route (λ q. cc (c, (str_eq_iff _ "converse").1 q))
                  refl)
          ])
    ]

module _ {W : Type 0} (repositories : ModelRepositories W) where
  -- With the rules and routes that the repositories return, a resolution has the outcome that these
  -- determine: the rule of the highest priority that matches, then the route of the highest priority
  -- for its logical model, which must be a `converse` route.
  pub resolve-Resolution :
      (model : String) (w w' w'' : W) (rules : List ModelAliasRuleRecord)
      (routes : List ModelRouteRecord)
      → repositories.list_alias_rules w ≡ (ok rules, w')
      → repositories.list_model_routes w' ≡ (ok routes, w'')
      → Resolution model rules routes (resolve repositories model w).0
  unfolding resolve
  resolve-Resolution model w w' w'' rules routes a b =
      rw a (elim (Option-cases (find_alias_rule rules model)) [
        | inl e ↦
            rw (e, with_rule)
              (no_rule (unfold find_alias_rule in best_nothing _ (λ r. r.priority) rules e) refl)
        | inr (rule, e) ↦
            rw (e, with_rule)
              (rw b (
                finish-Resolution model rules routes rule
                  (unfold find_alias_rule in best-IsTop _ (λ r. r.priority) rules rule e)))
      ])
