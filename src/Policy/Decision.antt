-- ===== src/Policy/Decision.antt =====
-- What `evaluate` decides, stated by the policies that concern the user and not by their order.
use mathlib.Core.Bool.{false≢true}
use claude_code_proxy.Prelude.{
  String, Bool, true, false, ◌||◌, Option, some, List, [], ◌∷◌, ◌≡◌, ◌↔◌, ◌⊎◌, inl, inr, refl, In,
  here, there, any, find, any_of_In, In_of_any, any-find-none, any-find-some, Bool-cases,
  Option-cases, arith, sym, ap, ◌∙◌,
}
use claude_code_proxy.Prelude.Int.{ℤ}
use claude_code_proxy.Exec.{Result-cases, ok}
use claude_code_proxy.Domain.{UserRecord, PolicyRecord}
use claude_code_proxy.Policy.{
  PolicyDecision, PolicyEvaluationTrace, evaluate, decide, trace_of, blocked_user, denies, allows,
  is_deny, is_allow, collect_policies_by_scope, resolve_effective_max_output_tokens,
}
use claude_code_proxy.Policy.Scopes.{Concerns, In-collect_policies_by_scope}

-- A policy of the list that is active and concerns the user.
abbrev pub Applies : UserRecord → List PolicyRecord → PolicyRecord → Type 0
Applies user ps p = In p ps × (p.is_active ≡ true) × Concerns user p

-- No policy that applies denies the model.
abbrev pub NotDenied : UserRecord → String → List PolicyRecord → Type 0
NotDenied user model ps = (p : PolicyRecord) → Applies user ps p → denies model p ≡ false

-- No policy that applies is about models, or one that applies allows this one.
abbrev pub Permitted : UserRecord → String → List PolicyRecord → Type 0
Permitted user model ps =
    ((p : PolicyRecord) → Applies user ps p → (is_allow p || is_deny p) ≡ false)
    ⊎ ((p : PolicyRecord) × Applies user ps p × (allows model p ≡ true))

decide_allowed :
    (model : String) (l : List PolicyRecord) (n : Option ℤ) (t : PolicyEvaluationTrace)
    → ((decide model l n t).allowed ≡ true) ↔ (
        (any (denies model) l ≡ false)
        × ((any (λ p. is_allow p || is_deny p) l ≡ false) ⊎ (any (allows model) l ≡ true)))
decide_allowed model l n t = elim (Option-cases (find (denies model) l)) [
  | inl e ↦ rw (e, decide) (ground (arith, any-find-none (denies model) l e))
  | inr (p, e) ↦ rw (e, decide) (ground (arith, any-find-some (denies model) l p e))
]

all_false {ℓ} :
    {A : Type ℓ} (f : A → Bool) (xs : List A) → ((a : A) → In a xs → f a ≡ false) → any f xs ≡ false
all_false f [] h = refl
all_false f (x ∷ xs) h = rw (h x (here refl)) (all_false f xs (λ a m. h a (there m)))

false_of_In {ℓ} :
    {A : Type ℓ} (f : A → Bool) (a : A) {xs : List A} → In a xs → any f xs ≡ false → f a ≡ false
false_of_In f a m h = elim (Bool-cases (f a)) [
  | inl e ↦ absurd (false≢true (sym h ∙ any_of_In f a m e))
  | inr e ↦ e
]

module _ (user : UserRecord) (model : String) (ps : List PolicyRecord) where
  abbrev pub collected : List PolicyRecord
  collected = (collect_policies_by_scope user ps).1

  pub Applies-of_In : (p : PolicyRecord) → In p collected → Applies user ps p
  Applies-of_In p = (In-collect_policies_by_scope user ps p).0

  pub In_of_applies : (p : PolicyRecord) → Applies user ps p → In p collected
  In_of_applies p = (In-collect_policies_by_scope user ps p).1

  denied_iff : (any (denies model) collected ≡ false) ↔ NotDenied user model ps
  denied_iff = (
    λ h p a. false_of_In (denies model) p (In_of_applies p a) h,
    λ h. all_false (denies model) collected (λ p i. h p (Applies-of_In p i)),
  )

  Permitted-of_any :
      (any (λ p. is_allow p || is_deny p) collected ≡ false) ⊎ (any (allows model) collected ≡ true)
      → Permitted user model ps
  Permitted-of_any (inl h) = inl (λ p a. false_of_In _ p (In_of_applies p a) h)
  Permitted-of_any (inr h) =
      let (p, i, t) = In_of_any (allows model) collected h in inr (p, Applies-of_In p i, t)

  any_of_Permitted :
      Permitted user model ps
      → (any (λ p. is_allow p || is_deny p) collected ≡ false)
        ⊎ (any (allows model) collected ≡ true)
  any_of_Permitted (inl h) = inl (all_false _ collected (λ p i. h p (Applies-of_In p i)))
  any_of_Permitted (inr (p, a, t)) = inr (any_of_In (allows model) p (In_of_applies p a) t)

  -- The decision of an active user with access is `decide` of the collected policies.
  pub evaluate-decide :
      (d : PolicyDecision)
      → user.is_active ≡ true
      → user.proxy_access_enabled ≡ true
      → evaluate user model ps ≡ ok d
      → (n : Option ℤ) × (resolve_effective_max_output_tokens collected ≡ ok n)
        × (d ≡ decide model collected n (trace_of (collect_policies_by_scope user ps)))
  unfolding evaluate
  evaluate-decide d a b h =
      elim (Result-cases
        (resolve_effective_max_output_tokens (collect_policies_by_scope user ps).1)) [
          | inl (n, e) ↦ (n, e, ground (arith, a, b, e, h))
          | inr (x, e) ↦ absurd (ground (arith, a, b, e, h))
        ]

  pub evaluate_inactive :
      user.is_active ≡ false → evaluate user model ps ≡ ok (blocked_user "user_inactive")
  unfolding evaluate
  evaluate_inactive a = rw a

  pub evaluate_without_access :
      user.is_active ≡ true
      → user.proxy_access_enabled ≡ false
      → evaluate user model ps ≡ ok (blocked_user "proxy_access_disabled")
  unfolding evaluate
  evaluate_without_access a b = rw (a, b)

  -- When `evaluate` returns, it allows the model exactly when the user is active and has access, no
  -- active policy that concerns him denies the model, and either none of those policies is about
  -- models or one of them allows this model.
  pub evaluate-allowed :
      (d : PolicyDecision)
      → evaluate user model ps ≡ ok d
      → (d.allowed ≡ true) ↔ (
          (user.is_active ≡ true)
          × (user.proxy_access_enabled ≡ true)
          × NotDenied user model ps
          × Permitted user model ps)
  evaluate-allowed d h = elim (Bool-cases user.is_active) [
    | inr a ↦ (λ t. cc (evaluate_inactive a, h, t), λ r. cc (a, r.0))
    | inl a ↦ elim (Bool-cases user.proxy_access_enabled) [
      | inr b ↦ (λ t. cc (evaluate_without_access a b, h, t), λ r. cc (b, r.1))
      | inl b ↦
          let (n, e, q) = evaluate-decide d a b h in
          let by_list =
            decide_allowed model collected n (trace_of (collect_policies_by_scope user ps)) in
          (
            λ t.
                let (x, y) = by_list.0 (ap (λ (z : PolicyDecision). z.allowed) (sym q) ∙ t) in
                (a, b, denied_iff.0 x, Permitted-of_any y),
            λ r.
                ap (λ (z : PolicyDecision). z.allowed) q
                ∙ by_list.1 (denied_iff.1 r.2, any_of_Permitted r.3),
          )
    ]
  ]

  -- A user who is active and has access is denied with the reason `model_denied` as soon as one
  -- policy that applies denies the model, whatever other policies allow.
  pub evaluate-model_denied :
      (d : PolicyDecision) (p : PolicyRecord)
      → user.is_active ≡ true
      → user.proxy_access_enabled ≡ true
      → Applies user ps p
      → denies model p ≡ true
      → evaluate user model ps ≡ ok d
      → (d.allowed ≡ false) × (d.denial_reason ≡ some "model_denied")
  evaluate-model_denied d p a b applies t h =
      let (n, e, q) = evaluate-decide d a b h in
      rw q (decide_denied collected n _ (any_of_In (denies model) p (In_of_applies p applies) t))
    where
      decide_denied :
          (l : List PolicyRecord) (n : Option ℤ) (t : PolicyEvaluationTrace)
          → any (denies model) l ≡ true
          → ((decide model l n t).allowed ≡ false)
            × ((decide model l n t).denial_reason ≡ some "model_denied")
      decide_denied l n t h = elim (Option-cases (find (denies model) l)) [
        | inl e ↦ absurd (false≢true (sym (any-find-none (denies model) l e) ∙ h))
        | inr (p, e) ↦ rw (e, decide) (refl, refl)
      ]
