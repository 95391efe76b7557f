-- ===== src/Policy/Limits.antt =====
-- The effective limit on output tokens, and when computing it raises.
use claude_code_proxy.Prelude.{
  String, true, false, Option, some, List, [], ◌∷◌, ◌≡◌, inl, inr, refl, In, here, there,
  Bool-cases, Option-cases, arith, ap, sym, ◌∙◌, some_inj,
}
use mathlib.Core.Path.{subst}
use claude_code_proxy.Prelude.Int.{ℤ, ◌≤ℤ◌, min_ℤ, ltℤ}
use claude_code_proxy.Exec.{ok_inj, Result-cases, ok}
use claude_code_proxy.Domain.{PolicyRecord, UserRecord}
use claude_code_proxy.Text.Number.{int_of_text}
use claude_code_proxy.Policy.Decision.{
  Applies, collected, Applies-of_In, In_of_applies, evaluate-decide, evaluate_inactive,
  evaluate_without_access,
}
use claude_code_proxy.Policy.{
  trace_of, collect_policies_by_scope, evaluate, decide, PolicyDecision, PolicyEvaluationTrace,
  is_limit, token_limits, least, least?, resolve_effective_max_output_tokens,
}

least-le_first : (n : ℤ) (ns : List ℤ) → least n ns ≤ℤ n
least-le_first n [] = omega arith
least-le_first n (m ∷ ms) = ground (arith, least-le_first (min_ℤ n m) ms)

least-le : (m n : ℤ) {ns : List ℤ} → In m ns → least n ns ≤ℤ m
least-le m n (here {x = x} {xs = xs} e) = rw e (ground (arith, least-le_first (min_ℤ n x) xs))
least-le m n (there {x = x} i) = least-le m (min_ℤ n x) i

token_limits_inv :
    (p : PolicyRecord) (l : List PolicyRecord) (ns : List ℤ)
    → token_limits (p ∷ l) ≡ ok ns
    → is_limit p ≡ true
    → (n : ℤ) × (ms : List ℤ) × (int_of_text p.rule_value ≡ some n)
      × (token_limits l ≡ ok ms)
      × (ns ≡ n ∷ ms)
unfolding token_limits
token_limits_inv p l ns h t = elim (Option-cases (int_of_text p.rule_value)) [
  | inl v ↦ absurd (ground (arith, h, t, v))
  | inr (n, v) ↦ elim (Result-cases (token_limits l)) [
    | inl (ms, r) ↦ (n, ms, v, r, ground (arith, h, t, v, r))
    | inr (x, r) ↦ absurd (ground (arith, h, t, v, r))
  ]
]

token_limits_skip :
    (p : PolicyRecord) (l : List PolicyRecord)
    → is_limit p ≡ false
    → token_limits (p ∷ l) ≡ token_limits l
unfolding token_limits
token_limits_skip p l t = rw (t, token_limits)

-- Where the limits are read, each policy with a limit has its number among them.
limit_read :
    (p : PolicyRecord) (n : ℤ) (ns : List ℤ) {l : List PolicyRecord}
    → In p l
    → is_limit p ≡ true
    → int_of_text p.rule_value ≡ some n
    → token_limits l ≡ ok ns
    → In n ns
limit_read p n ns (here {x = x} {xs = xs} e) t v h =
    let (m, ms, w, r, q) = token_limits_inv x xs ns h (ap is_limit (sym e) ∙ t) in
    rw q (here (some_inj (sym v ∙ ap (λ (z : PolicyRecord). int_of_text z.rule_value) e ∙ w)))
limit_read p n ns (there {x = x} {xs = xs} i) t v h = elim (Bool-cases (is_limit x)) [
  | inl b ↦
      let (m, ms, w, r, q) = token_limits_inv x xs ns h b in
      rw q (there (limit_read p n ms i t v r))
  | inr b ↦ limit_read p n ns i t v (sym (token_limits_skip x xs b) ∙ h)
]

-- And each number that is read is the limit of a policy.
limit_source :
    (l : List PolicyRecord) (ns : List ℤ) (n : ℤ)
    → token_limits l ≡ ok ns
    → In n ns
    → (p : PolicyRecord) × In p l × (is_limit p ≡ true) × (int_of_text p.rule_value ≡ some n)
unfolding token_limits
limit_source [] ns n h i = elim (subst (In n) (sym (ok_inj h)) i) [ ]
limit_source (x ∷ xs) ns n h i = elim (Bool-cases (is_limit x)) [
  | inr b ↦
      let (p, j, t, v) = limit_source xs ns n (sym (token_limits_skip x xs b) ∙ h) i in
      (p, there j, t, v)
  | inl b ↦
      let (m, ms, w, r, q) = token_limits_inv x xs ns h b in
      of_head b m ms w (subst (In n) q i) (λ j. limit_source xs ms n r j)
]
  where
    Source : List PolicyRecord → Type 0
    Source l =
        (p : PolicyRecord) × In p l × (is_limit p ≡ true) × (int_of_text p.rule_value ≡ some n)

    of_head :
        is_limit x ≡ true
        → (m : ℤ) (ms : List ℤ) → int_of_text x.rule_value ≡ some m
        → In n (m ∷ ms)
        → (In n ms → Source xs)
        → Source (x ∷ xs)
    of_head b m ms w (here e) rest = (x, here refl, b, w ∙ ap some (sym e))
    of_head b m ms w (there j) rest = let (p, k, t, v) = rest j in (p, there k, t, v)

least-In : (n : ℤ) (ns : List ℤ) → In (least n ns) (n ∷ ns)
least-In n [] = here refl
least-In n (m ∷ ms) = elim (Bool-cases (ltℤ m n)) [
  | inl e ↦ rw e (there (least-In m ms))
  | inr e ↦ rw e (keep_place (least-In n ms))
]
  where
    keep_place : In (least n ms) (n ∷ ms) → In (least n ms) (n ∷ m ∷ ms)
    keep_place (here e) = here e
    keep_place (there i) = there (there i)

token_limits_total :
    (l : List PolicyRecord)
    → ((p : PolicyRecord)
        → In p l
        → is_limit p ≡ true
        → (n : ℤ) × (int_of_text p.rule_value ≡ some n))
    → (ns : List ℤ) × (token_limits l ≡ ok ns)
unfolding token_limits
token_limits_total [] h = ([], refl)
token_limits_total (x ∷ xs) h =
    let (ns, r) = token_limits_total xs (λ p i. h p (there i)) in
    elim (Bool-cases (is_limit x)) [
      | inr b ↦ (ns, rw (b, token_limits) r)
      | inl b ↦
          let (n, v) = h x (here refl) b in
          (n ∷ ns, rw (b, token_limits) (rw v (rw (r, token_limits))))
    ]

least?-le : (ns : List ℤ) (n : ℤ) → In n ns → (m : ℤ) × (least? ns ≡ some m) × (m ≤ℤ n)
least?-le [] n i = elim i [ ]
least?-le (x ∷ xs) n (here e) = (least x xs, refl, rw e (least-le_first x xs))
least?-le (x ∷ xs) n (there i) = (least x xs, refl, least-le n x i)

least?-In : (ns : List ℤ) (m : ℤ) → least? ns ≡ some m → In m ns
least?-In [] m h = cc
least?-In (x ∷ xs) m h = subst (λ k. In k (x ∷ xs)) (some_inj h) (least-In x xs)

limits_of_resolved :
    (l : List PolicyRecord) (o : Option ℤ)
    → resolve_effective_max_output_tokens l ≡ ok o
    → (ns : List ℤ) × (token_limits l ≡ ok ns) × (least? ns ≡ o)
unfolding resolve_effective_max_output_tokens
limits_of_resolved l o h = elim (Result-cases (token_limits l)) [
  | inl (ns, r) ↦ (ns, r, ground (arith, h, r))
  | inr (x, r) ↦ absurd (ground (arith, h, r))
]

module _ (user : UserRecord) (model : String) (ps : List PolicyRecord) (d : PolicyDecision)
    (active : user.is_active ≡ true) (access : user.proxy_access_enabled ≡ true)
    (returned : evaluate user model ps ≡ ok d) where
  limit_of_decision :
      resolve_effective_max_output_tokens (collected user model ps)
      ≡ ok d.effective_max_output_tokens
  limit_of_decision =
      let (n, e, q) = evaluate-decide user model ps d active access returned in
      e
      ∙ ap ok (
          sym (
            ap (λ (z : PolicyDecision). z.effective_max_output_tokens) q
            ∙ decide_limit (collected user model ps) n
                (trace_of (collect_policies_by_scope user ps))))
    where
      decide_limit :
          (l : List PolicyRecord) (n : Option ℤ) (t : PolicyEvaluationTrace)
          → (decide model l n t).effective_max_output_tokens ≡ n
      decide_limit l n t = ground arith

  -- For an active user with access, the effective limit is at most the number of every policy
  -- `max_output_tokens` that applies.
  pub evaluate-limit_le :
      (p : PolicyRecord) (n : ℤ)
      → Applies user ps p
      → is_limit p ≡ true
      → int_of_text p.rule_value ≡ some n
      → (m : ℤ) × (d.effective_max_output_tokens ≡ some m) × (m ≤ℤ n)
  evaluate-limit_le p n applies t v =
      let (ns, r, q) = limits_of_resolved _ _ limit_of_decision in
      let (m, e, le) =
        least?-le ns n (limit_read p n ns (In_of_applies user model ps p applies) t v r) in
      (m, sym q ∙ e, le)

  -- For an active user with access, an effective limit is the number of a `max_output_tokens` policy
  -- that applies.
  pub evaluate-limit_source :
      (m : ℤ)
      → d.effective_max_output_tokens ≡ some m
      → (p : PolicyRecord) × Applies user ps p
        × (is_limit p ≡ true)
        × (int_of_text p.rule_value ≡ some m)
  evaluate-limit_source m h =
      let (ns, r, q) = limits_of_resolved _ _ limit_of_decision in
      let (p, i, t, v) = limit_source _ ns m r (least?-In ns m (q ∙ h)) in
      (p, Applies-of_In user model ps p i, t, v)

-- `evaluate` returns a decision for every user and model if each applying `max_output_tokens` policy
-- has a number for its value.
pub evaluate-returns :
    (user : UserRecord) (model : String) (ps : List PolicyRecord)
    → ((p : PolicyRecord)
        → Applies user ps p
        → is_limit p ≡ true
        → (n : ℤ) × (int_of_text p.rule_value ≡ some n))
    → (d : PolicyDecision) × (evaluate user model ps ≡ ok d)
evaluate-returns user model ps h = elim (Bool-cases user.is_active) [
  | inr a ↦ (_, evaluate_inactive user model ps a)
  | inl a ↦ elim (Bool-cases user.proxy_access_enabled) [
    | inr b ↦ (_, evaluate_without_access user model ps a b)
    | inl b ↦
        let (ns, r) =
          token_limits_total (collected user model ps)
            (λ p i. h p (Applies-of_In user model ps p i)) in
        (
          decide model (collected user model ps) (least? ns)
              (trace_of (collect_policies_by_scope user ps)),
          unfold evaluate resolve_effective_max_output_tokens in ground (arith, a, b, r),
        )
  ]
]
