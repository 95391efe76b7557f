-- ===== src/Tests/Quota.antt =====
-- proxy/quota_engine.py over a stand-in for floats: natural numbers, with a division that rounds.
use claude_code_proxy.Prelude.{
  ℕ, zero, suc, ◌*◌, ◌/◌, ◌≤◌, String, Bool, true, false, none, some, List, [], ◌∷◌, ◌≡◌, ◌↔◌, refl,
  In, here, there, arith, leb→le, le→leb, not, if◌then◌else◌,
}
use native.Mathlib.Nat.{le-div_iff_mul-le, div-mul-le_self, le_trans}
use claude_code_proxy.Prelude.Int.{pos, ◌≤ℤ◌}
use claude_code_proxy.Exec.{ok}
use claude_code_proxy.Domain.{BudgetPolicyRecord, day, cost_usd}
use claude_code_proxy.Tests.Fixtures.{whole}
use claude_code_proxy.Quota.{
  QuotaDecision, evaluate, effective_limit_value, select_effective_policy, build_usage_snapshot,
  resolve_requested_usage, get_active_pricing,
}
use claude_code_proxy.Quota.Conservative.{
  IsOrdered, WithinAll, evaluate-WithinAll, evaluate-denied_soft,
}

abbrev budget : String → ℕ → BudgetPolicyRecord
budget id_ limit = record {
  id = id_;
  scope_type = "user";
  scope_id = "u1";
  period_type = day;
  metric_type = cost_usd;
  limit_value = pos limit;
  soft_limit_percent = pos 100;
  hard_limit_percent = pos 100;
  is_active = true;
}

whole-IsOrdered : IsOrdered whole
whole-IsOrdered = record {
  le_same = λ a. ground arith;
  le_chain = λ a b c p q. ground arith;
  le_total = λ a b p. ground arith;
  of_int_mono = λ m n p. ground arith;
  div_mono = λ a b c p q. le→leb _ _ (div_le a b c (leb→le a b q));
  mul_mono = λ a b c p q. le→leb _ _ (mul_le a b c (leb→le b c q));
}
  where
    div_le : (a b c : ℕ) → a ≤ b → a / c ≤ b / c
    div_le a b zero h = omega arith
    div_le a b (suc c) h =
        (le-div_iff_mul-le (omega arith)).1 (le_trans (div-mul-le_self a (suc c)) h)

    mul_le : (a b c : ℕ) → b ≤ c → a * b ≤ a * c
    mul_le a b c h = grind arith

abbrev budgets : List BudgetPolicyRecord
budgets = budget "b1" 9 ∷ budget "b2" 5 ∷ []

abbrev decision : ℕ → Bool → QuotaDecision ℕ
decision usage allowed = record {
  allowed = allowed;
  denial_reason = if allowed then none else some "quota_hard_limit_exceeded";
  effective_policy = some (budget "b2" 5);
  soft_limit_reached = not allowed;
  hard_limit_reached = not allowed;
  projected_usage = usage;
  usage_snapshot = none;
}

evaluate_denied :
    evaluate whole {W = Unit {0}} none budgets 500 (some 7) none none tt
    ≡ (ok (decision 507 false), tt)
unfolding evaluate select_effective_policy effective_limit_value build_usage_snapshot
    resolve_requested_usage get_active_pricing
evaluate_denied = refl

evaluate_allowed :
    evaluate whole {W = Unit {0}} none budgets 400 (some 7) none none tt
    ≡ (ok (decision 407 true), tt)
unfolding evaluate select_effective_policy effective_limit_value build_usage_snapshot
    resolve_requested_usage get_active_pricing
evaluate_allowed = refl

evaluate-WithinAll_example :
    ((decision 407 true).allowed ≡ true) ↔ WithinAll whole whole-IsOrdered budgets 407
evaluate-WithinAll_example =
    evaluate-WithinAll whole whole-IsOrdered none budgets 400 (some 7) none none tt tt
      (decision 407 true) evaluate_allowed

valid_budgets :
    (p : BudgetPolicyRecord)
    → In p budgets
    → (pos 0 ≤ℤ p.limit_value) × (p.soft_limit_percent ≤ℤ p.hard_limit_percent)
valid_budgets p (here e) = rw e (omega arith, omega arith)
valid_budgets p (there (here e)) = rw e (omega arith, omega arith)
valid_budgets p (there (there i)) = elim i [ ]

evaluate-denied_soft_example :
    ((decision 507 false).soft_limit_reached ≡ true)
    × ((decision 507 false).hard_limit_reached ≡ true)
    × ((decision 507 false).denial_reason ≡ some "quota_hard_limit_exceeded")
evaluate-denied_soft_example =
    evaluate-denied_soft whole whole-IsOrdered none budgets 500 (some 7) none none tt tt
      (decision 507 false) evaluate_denied valid_budgets refl
