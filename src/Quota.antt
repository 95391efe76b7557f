-- ===== src/Quota.antt =====
-- proxy/quota_engine.py: the effective budget of a request and whether it is used up. Python's
-- float is the interface `Floats`.
pub mod Conservative
use claude_code_proxy.Prelude.{
  ℕ, String, Bool, true, false, not, ◌&&◌, Option, none, some, List, filter, best, ltb, ◌==◌,
  str_eq, if◌then◌else◌, [],
}
use Prim.Native.String.{compare}
use text.Mathlib.Text.{is_lt}
use claude_code_proxy.Prelude.Int.{ℤ, pos, negsuc, ltℤ}
use claude_code_proxy.Exec.{Exec, ◌>>=◌, pure}
use claude_code_proxy.Domain.{
  BudgetPolicyRecord, ModelPricingRecord, BudgetMetricType, tokens, cost_usd,
}

-- The operations on floats that the program uses.
pub record Floats : Type 1 where
  pub F : Type 0
  pub of_int : ℤ → F
  pub add : F → F → F
  pub mul : F → F → F
  pub div : F → F → F
  pub le : F → F → Bool

pub record TokenUsageEstimate : Type 0 where
  pub input_tokens : ℤ
  pub output_tokens : ℤ
  pub cache_write_input_tokens : ℤ
  pub cache_read_input_tokens : ℤ

pub record UsageCostSnapshot (F : Type 0) : Type 0 where
  pub pricing_catalog_id : String
  pub estimated_input_cost_usd : F
  pub estimated_output_cost_usd : F
  pub estimated_cache_write_cost_usd : F
  pub estimated_cache_read_cost_usd : F
  pub estimated_total_cost_usd : F

pub record QuotaDecision (F : Type 0) : Type 0 where
  pub allowed : Bool
  pub denial_reason : Option String
  pub effective_policy : Option BudgetPolicyRecord
  pub soft_limit_reached : Bool
  pub hard_limit_reached : Bool
  pub projected_usage : F
  pub usage_snapshot : Option (UsageCostSnapshot F)

-- SCOPE_RANK.get(scope_type, 99)
abbrev pub scope_rank : String → ℕ
scope_rank s =
    if str_eq s "user"
    then 0
    else if str_eq s "team"
    then 1
    else if str_eq s "global"
    then 2
    else 99

abbrev eqℤ : ℤ → ℤ → Bool
eqℤ a b = not (ltℤ a b) && not (ltℤ b a)

abbrev is_cost : BudgetMetricType → Bool
is_cost tokens = false
is_cost cost_usd = true

module _ (floats : Floats) where
  open floats use {F, of_int, add, mul, div, le}

  abbrev pub zero_cost : F
  zero_cost = of_int (pos 0)

  abbrev million : F
  million = of_int (pos 1000000)

  unfoldable pub effective_limit_value : ℤ → ℤ → F
  effective_limit_value limit_value percent =
      mul (of_int limit_value) (div (of_int percent) (of_int (pos 100)))

  abbrev pub hard_limit : BudgetPolicyRecord → F
  hard_limit p = effective_limit_value p.limit_value p.hard_limit_percent

  abbrev pub soft_limit : BudgetPolicyRecord → F
  soft_limit p = effective_limit_value p.limit_value p.soft_limit_percent

  -- Python's `<` on the keys of two policies: the first place where the tuples differ decides.
  pub key_lt : BudgetPolicyRecord → BudgetPolicyRecord → Bool
  key_lt p q =
      if not (le (hard_limit p) (hard_limit q) && le (hard_limit q) (hard_limit p))
      then not (le (hard_limit q) (hard_limit p))
      else if not (eqℤ p.limit_value q.limit_value)
      then ltℤ p.limit_value q.limit_value
      else if not (eqℤ p.hard_limit_percent q.hard_limit_percent)
      then ltℤ p.hard_limit_percent q.hard_limit_percent
      else if not (scope_rank p.scope_type == scope_rank q.scope_type)
      then ltb (scope_rank p.scope_type) (scope_rank q.scope_type)
      else is_lt (compare p.id q.id)

  unfoldable pub select_effective_policy : List BudgetPolicyRecord → Option BudgetPolicyRecord
  unfolding key_lt
  select_effective_policy policies = best key_lt (filter (λ p. p.is_active) policies)

  abbrev cost : ℤ → F → F
  cost n per_million = div (mul (of_int n) per_million) million

  abbrev snapshot : ModelPricingRecord F → TokenUsageEstimate → UsageCostSnapshot F
  snapshot p u =
      let input_cost = cost u.input_tokens p.input_cost_per_million in
      let output_cost = cost u.output_tokens p.output_cost_per_million in
      let cache_write_cost = cost u.cache_write_input_tokens p.cache_write_input_cost_per_million in
      let cache_read_cost = cost u.cache_read_input_tokens p.cache_read_input_cost_per_million in
      record {
        pricing_catalog_id = p.id;
        estimated_input_cost_usd = input_cost;
        estimated_output_cost_usd = output_cost;
        estimated_cache_write_cost_usd = cache_write_cost;
        estimated_cache_read_cost_usd = cache_read_cost;
        estimated_total_cost_usd =
            add (add (add input_cost output_cost) cache_write_cost) cache_read_cost;
      }

  unfoldable pub build_usage_snapshot :
      Option (ModelPricingRecord F) → Option TokenUsageEstimate → Option (UsageCostSnapshot F)
  build_usage_snapshot none usage = none
  build_usage_snapshot (some p) none = none
  build_usage_snapshot (some p) (some u) = some (snapshot p u)

  abbrev requested_by_policy : Option BudgetPolicyRecord → Option (UsageCostSnapshot F) → F
  requested_by_policy none s = zero_cost
  requested_by_policy (some p) none = zero_cost
  requested_by_policy (some p) (some s) =
      if is_cost p.metric_type then s.estimated_total_cost_usd else zero_cost

  unfoldable pub resolve_requested_usage :
      Option BudgetPolicyRecord → Option F → Option (UsageCostSnapshot F) → F
  resolve_requested_usage policy (some n) s = n
  resolve_requested_usage policy none s = requested_by_policy policy s

  -- The decision from the policy that was selected and the projected usage.
  abbrev pub decide : Option BudgetPolicyRecord → F → Option (UsageCostSnapshot F) → QuotaDecision F
  decide none projected s = record {
    allowed = true;
    denial_reason = none;
    effective_policy = none;
    soft_limit_reached = false;
    hard_limit_reached = false;
    projected_usage = projected;
    usage_snapshot = s;
  }
  decide (some p) projected s = record {
    allowed = not (le (hard_limit p) projected);
    denial_reason = if le (hard_limit p) projected then some "quota_hard_limit_exceeded" else none;
    effective_policy = some p;
    soft_limit_reached = le (soft_limit p) projected;
    hard_limit_reached = le (hard_limit p) projected;
    projected_usage = projected;
    usage_snapshot = s;
  }

  -- PricingRepository: the price of a model today, None for a model without one
  abbrev pub GetActivePricing : Type 0 → Type 0
  GetActivePricing W = String → Exec W (Option (ModelPricingRecord F))

  module _ {W : Type 0} where
    unfoldable pub get_active_pricing :
        Option (GetActivePricing W) → Option String → Exec W (Option (ModelPricingRecord F))
    get_active_pricing none model = pure none
    get_active_pricing (some repository) none = pure none
    get_active_pricing (some repository) (some model) = repository model

    unfoldable pub evaluate :
        Option (GetActivePricing W)
        → List BudgetPolicyRecord
        → F
        → Option F
        → Option String
        → Option TokenUsageEstimate
        → Exec W (QuotaDecision F)
    evaluate repository policies current requested model usage = do
      pricing ← get_active_pricing repository model
      let s = build_usage_snapshot pricing usage
      pure (
          decide (select_effective_policy policies)
            (add current (resolve_requested_usage (select_effective_policy policies) requested s))
            s)
