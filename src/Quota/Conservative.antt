-- ===== src/Quota/Conservative.antt =====
-- The quota decision is conservative: the strictest active budget decides.
use claude_code_proxy.Prelude.{
  String, true, false, not, Option, none, some, List, ◌≡◌, ◌↔◌, refl, inl, inr, In, arith,
  Bool-cases, Option-cases, best-In, best-top, best-none, In-filter, In_of_filter, sym, ap, ◌∙◌,
}
use mathlib.Core.Path.{subst}
use mathlib.Core.Bool.{false≢true}
use claude_code_proxy.Prelude.Int.{ℤ, pos, ◌≤ℤ◌}
use claude_code_proxy.Exec.{Result, ok, bind_ok, ok_inj}
use claude_code_proxy.Domain.{BudgetPolicyRecord}
use claude_code_proxy.Quota.{
  Floats, QuotaDecision, UsageCostSnapshot, TokenUsageEstimate, hard_limit, soft_limit, key_lt,
  select_effective_policy, decide, GetActivePricing, get_active_pricing, evaluate,
  effective_limit_value, build_usage_snapshot, resolve_requested_usage,
}

-- What IEEE floats other than NaN satisfy: `<=` is a total preorder, and conversion, division and
-- multiplication by a number that is not negative respect it (rounding is monotonic).
pub record IsOrdered (floats : Floats) : Type 1 where
  pub le_same : (a : floats.F) → floats.le a a ≡ true
  pub le_chain :
      (a b c : floats.F) → floats.le a b ≡ true → floats.le b c ≡ true → floats.le a c ≡ true
  pub le_total : (a b : floats.F) → floats.le a b ≡ false → floats.le b a ≡ true
  pub of_int_mono : (m n : ℤ) → m ≤ℤ n → floats.le (floats.of_int m) (floats.of_int n) ≡ true
  pub div_mono :
      (a b c : floats.F)
      → floats.le (floats.of_int (pos 0)) c ≡ true
      → floats.le a b ≡ true
      → floats.le (floats.div a c) (floats.div b c) ≡ true
  pub mul_mono :
      (a b c : floats.F)
      → floats.le (floats.of_int (pos 0)) a ≡ true
      → floats.le b c ≡ true
      → floats.le (floats.mul a b) (floats.mul a c) ≡ true

decide_projected :
    (floats : Floats) (o : Option BudgetPolicyRecord) (u : floats.F)
    (s : Option (UsageCostSnapshot floats.F))
    → (decide floats o u s).projected_usage ≡ u
decide_projected floats none u s = refl
decide_projected floats (some p) u s = refl

module _ (floats : Floats) (laws : IsOrdered floats) where
  open floats use {F, le}

  key_wins :
      (p q : BudgetPolicyRecord)
      → key_lt floats p q ≡ true
      → le (hard_limit floats p) (hard_limit floats q) ≡ true
  unfolding key_lt
  key_wins p q h = ground (
    arith,
    laws.le_total (hard_limit floats q) (hard_limit floats p),
    laws.le_total (hard_limit floats p) (hard_limit floats q),
  )

  key_loses :
      (p q : BudgetPolicyRecord)
      → key_lt floats p q ≡ false
      → le (hard_limit floats q) (hard_limit floats p) ≡ true
  unfolding key_lt
  key_loses p q h = ground arith

  selected_strictest :
      (ps : List BudgetPolicyRecord) (p q : BudgetPolicyRecord)
      → select_effective_policy floats ps ≡ some p
      → In q ps
      → q.is_active ≡ true
      → le (hard_limit floats p) (hard_limit floats q) ≡ true
  unfolding select_effective_policy
  selected_strictest ps p q h i a =
      best-top (key_lt floats) (λ x y. le (hard_limit floats x) (hard_limit floats y) ≡ true)
        (λ x. laws.le_same _) (λ x y z. laws.le_chain _ _ _) key_wins key_loses _ p q h
        (In-filter (λ r. r.is_active) q i a)

  selected_active :
      (ps : List BudgetPolicyRecord) (p : BudgetPolicyRecord)
      → select_effective_policy floats ps ≡ some p
      → In p ps × (p.is_active ≡ true)
  unfolding select_effective_policy
  selected_active ps p h = In_of_filter (λ r. r.is_active) p ps (best-In (key_lt floats) _ p h)

  selected_none :
      (ps : List BudgetPolicyRecord) (q : BudgetPolicyRecord)
      → select_effective_policy floats ps ≡ none
      → In q ps
      → q.is_active ≡ false
  unfolding select_effective_policy
  selected_none ps q h i = elim (Bool-cases q.is_active) [
    | inr e ↦ e
    | inl e ↦
        elim (subst (In q) (best-none (key_lt floats) _ h) (In-filter (λ r. r.is_active) q i e)) [ ]
  ]

  soft_le_hard :
      (p : BudgetPolicyRecord)
      → pos 0 ≤ℤ p.limit_value
      → p.soft_limit_percent ≤ℤ p.hard_limit_percent
      → le (soft_limit floats p) (hard_limit floats p) ≡ true
  unfolding effective_limit_value
  soft_le_hard p a b = laws.mul_mono _ _ _ (laws.of_int_mono (pos 0) p.limit_value a) (
      laws.div_mono _ _ _ (laws.of_int_mono (pos 0) (pos 100) (omega arith))
        (laws.of_int_mono _ _ b))

  -- No active budget is reached by a usage.
  abbrev pub WithinAll : List BudgetPolicyRecord → F → Type 0
  WithinAll ps usage =
      (q : BudgetPolicyRecord)
      → In q ps
      → q.is_active ≡ true
      → le (hard_limit floats q) usage ≡ false

  decide_within :
      (ps : List BudgetPolicyRecord) (usage : F) (s : Option (UsageCostSnapshot F))
      → ((decide floats (select_effective_policy floats ps) usage s).allowed ≡ true)
        ↔ WithinAll ps usage
  decide_within ps usage s = elim (Option-cases (select_effective_policy floats ps)) [
    | inl e ↦
        rw (e, decide)
          (λ t q i a. absurd (false≢true (sym (selected_none ps q e i) ∙ a)), λ h. refl)
    | inr (p, e) ↦
        rw (e, decide)
          (
            λ t q i a. below p q usage (selected_strictest ps p q e i a) t,
            λ h. let (i, a) = selected_active ps p e in ap not (h p i a),
          )
  ]
    where
      below :
          (p q : BudgetPolicyRecord) (u : F)
          → le (hard_limit floats p) (hard_limit floats q) ≡ true
          → not (le (hard_limit floats p) u) ≡ true
          → le (hard_limit floats q) u ≡ false
      below p q u k t = ground (arith, laws.le_chain (hard_limit floats p) (hard_limit floats q) u)

  module _ {W : Type 0} (repository : Option (GetActivePricing floats W))
      (policies : List BudgetPolicyRecord) (current : F) (requested : Option F)
      (model : Option String) (usage : Option TokenUsageEstimate) where
    -- The policy that decides, and the usage that it is held against.
    abbrev selected : Option BudgetPolicyRecord
    selected = select_effective_policy floats policies

    abbrev projected : Option (UsageCostSnapshot F) → F
    projected s = floats.add current (resolve_requested_usage floats selected requested s)

    evaluate-decide :
        (w w' : W) (d : QuotaDecision F)
        → evaluate floats repository policies current requested model usage w ≡ (ok d, w')
        → (s : Option (UsageCostSnapshot F)) × (d ≡ decide floats selected (projected s) s)
    unfolding evaluate
    evaluate-decide w w' d h =
        let (price, w1, e, q) = bind_ok (get_active_pricing floats repository model) _ w w' d h in
        let s = build_usage_snapshot floats price usage in
        (s, sym (ok_inj (ap (λ (z : Result (QuotaDecision F) × W). z.0) q)))

    -- With floats whose comparison is an order that the arithmetic respects (IsOrdered): when the
    -- quota engine returns, it allows a request exactly when the projected usage reaches the hard
    -- limit of no active budget of the list.
    pub evaluate-WithinAll :
        (w w' : W) (d : QuotaDecision F)
        → evaluate floats repository policies current requested model usage w ≡ (ok d, w')
        → (d.allowed ≡ true) ↔ WithinAll policies d.projected_usage
    evaluate-WithinAll w w' d h =
        let (s, e) = evaluate-decide w w' d h in
        rw e (
          rw (decide_projected floats selected (projected s) s)
            (decide_within policies (projected s) s))

    -- With such floats, and budgets whose limit is not negative and whose soft percentage is at most
    -- the hard one, a request that is denied has reached the soft and the hard limit of its budget,
    -- and the reason says so.
    pub evaluate-denied_soft :
        (w w' : W) (d : QuotaDecision F)
        → evaluate floats repository policies current requested model usage w ≡ (ok d, w')
        → ((p : BudgetPolicyRecord)
            → In p policies
            → (pos 0 ≤ℤ p.limit_value) × (p.soft_limit_percent ≤ℤ p.hard_limit_percent))
        → d.allowed ≡ false
        → (d.soft_limit_reached ≡ true)
          × (d.hard_limit_reached ≡ true)
          × (d.denial_reason ≡ some "quota_hard_limit_exceeded")
    evaluate-denied_soft w w' d h valid denied =
        let (s, e) = evaluate-decide w w' d h in
        rw e (reached (projected s) s (sym (ap (λ (z : QuotaDecision F). z.allowed) e) ∙ denied))
      where
        over :
            (p : BudgetPolicyRecord) (u : F)
            → not (le (hard_limit floats p) u) ≡ false
            → le (hard_limit floats p) u ≡ true
        over p u t = ground arith

        reached :
            (u : F) (s : Option (UsageCostSnapshot F))
            → (decide floats selected u s).allowed ≡ false
            → ((decide floats selected u s).soft_limit_reached ≡ true)
              × ((decide floats selected u s).hard_limit_reached ≡ true)
              × ((decide floats selected u s).denial_reason ≡ some "quota_hard_limit_exceeded")
        reached u s t = elim (Option-cases selected) [
          | inl e ↦ absurd (false≢true (sym t ∙ (rw (e, decide))))
          | inr (p, e) ↦
              let (i, a) = selected_active policies p e in
              let hard : le (hard_limit floats p) u ≡ true = over p u (rw (e, decide) at t) in
              rw (e, decide)
                (
                  laws.le_chain _ _ _ (soft_le_hard p (valid p i).0 (valid p i).1) hard,
                  hard,
                  rw hard,
                )
        ]
