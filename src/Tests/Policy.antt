-- ===== src/Tests/Policy.antt =====
-- proxy/policy_engine.py and the patterns of its rules.
use claude_code_proxy.Prelude.{
  String, true, false, none, some, List, [], ◌∷◌, ◌≡◌, ◌↔◌, refl, ap, sym, ◌∙◌, In, here, there,
}
use mathlib.Core.Bool.{false≢true}
use claude_code_proxy.Prelude.Int.{ℤ, pos, ◌≤ℤ◌}
use claude_code_proxy.Exec.{ok, raised, other}
use claude_code_proxy.Domain.{UserRecord, PolicyRecord}
use claude_code_proxy.Text.Number.{int_of_text}
use claude_code_proxy.Glob.{fnmatchcase}
use claude_code_proxy.Text.{is_space}
use claude_code_proxy.Policy.{
  PolicyDecision, PolicyEvaluationTrace, evaluate, denies, is_limit, collect_policies_by_scope,
  resolve_effective_max_output_tokens, rule_matches_model,
}
use claude_code_proxy.Policy.Scopes.{
  Concerns, by_group, by_department, In-collect_policies_by_scope,
}
use claude_code_proxy.Policy.Decision.{Applies, NotDenied, Permitted, evaluate-allowed}
use claude_code_proxy.Policy.Limits.{evaluate-limit_le}

glob_tests :
    (fnmatchcase "claude-sonnet-4" "claude-*-4" ≡ true)
    × (fnmatchcase "claude-sonnet-4" "claude-*-5" ≡ false)
    × (fnmatchcase "gpt-4" "gpt-[3-5]" ≡ true)
    × (fnmatchcase "gpt-4" "gpt-[!3-5]" ≡ false)
    × (fnmatchcase "a]b" "a[]x]b" ≡ true)
    × (fnmatchcase "a[b" "a[b" ≡ true)
    × (fnmatchcase "Claude" "claude" ≡ false)
    × (fnmatchcase "x" "?" ≡ true)
unfolding fnmatchcase
glob_tests = (refl, refl, refl, refl, refl, refl, refl, refl)

int_tests :
    (int_of_text " 4096 " ≡ some (pos 4096))
    × (int_of_text "1_000" ≡ some (pos 1000))
    × (int_of_text "1__0" ≡ none)
    × (int_of_text "many" ≡ none)
unfolding int_of_text is_space
int_tests = (refl, refl, refl, refl)

abbrev policy : String → String → String → String → PolicyRecord
policy type_ id_ rule value = record {
  id = value;
  scope_type = type_;
  scope_id = id_;
  rule_type = rule;
  rule_value = value;
  is_active = true;
}

abbrev engineer : UserRecord
engineer = record {
  id = "u1";
  email = "u1@example.com";
  display_name = "U One";
  department = some "eng";
  cost_center = none;
  groups = "ml" ∷ [];
  proxy_access_enabled = true;
  is_active = true;
  created_at = 0;
  updated_at = 0;
}

abbrev limit_rule : PolicyRecord
limit_rule = policy "department" "eng" "max_output_tokens" "4096"

abbrev deny_rule : PolicyRecord
deny_rule = policy "group" "ml" "deny_model" "claude-opus-*"

abbrev rules : List PolicyRecord
rules = limit_rule ∷ deny_rule ∷ policy "global" "*" "allow_model" "claude-*" ∷ []

abbrev trace_of_rules : PolicyEvaluationTrace
trace_of_rules = record {
  evaluated_scopes = "user_status" ∷ "user:u1" ∷ "group:ml" ∷ "department:eng" ∷ "global" ∷ [];
  matched_policy_ids = "claude-opus-*" ∷ "4096" ∷ "claude-*" ∷ [];
}

abbrev sonnet_decision : PolicyDecision
sonnet_decision = record {
  allowed = true;
  denial_reason = none;
  effective_max_output_tokens = some (pos 4096);
  trace = trace_of_rules;
}

abbrev opus_decision : PolicyDecision
opus_decision = record sonnet_decision { allowed = false; denial_reason = some "model_denied" }

evaluate_sonnet : evaluate engineer "claude-sonnet-4" rules ≡ ok sonnet_decision
unfolding evaluate collect_policies_by_scope resolve_effective_max_output_tokens rule_matches_model
    fnmatchcase int_of_text is_space
evaluate_sonnet = refl

evaluate_opus : evaluate engineer "claude-opus-4" rules ≡ ok opus_decision
unfolding evaluate collect_policies_by_scope resolve_effective_max_output_tokens rule_matches_model
    fnmatchcase int_of_text is_space
evaluate_opus = refl

evaluate_bad_limit :
    evaluate engineer "m" (policy "user" "u1" "max_output_tokens" "lots" ∷ [])
    ≡ raised (other "ValueError")
unfolding evaluate collect_policies_by_scope resolve_effective_max_output_tokens rule_matches_model
    fnmatchcase int_of_text is_space
evaluate_bad_limit = refl

evaluate-allowed_example : (sonnet_decision.allowed ≡ true) ↔ (
    (engineer.is_active ≡ true)
    × (engineer.proxy_access_enabled ≡ true)
    × NotDenied engineer "claude-sonnet-4" rules
    × Permitted engineer "claude-sonnet-4" rules)
evaluate-allowed_example =
    evaluate-allowed engineer "claude-sonnet-4" rules sonnet_decision evaluate_sonnet

deny-Applies : Applies engineer rules deny_rule
deny-Applies = (there (here refl), refl, by_group refl (here refl))

limit-Applies : Applies engineer rules limit_rule
limit-Applies = (here refl, refl, by_department refl refl)

denies_opus : denies "claude-opus-4" deny_rule ≡ true
unfolding rule_matches_model fnmatchcase
denies_opus = refl

limit_number : int_of_text limit_rule.rule_value ≡ some (pos 4096)
unfolding int_of_text is_space
limit_number = refl

evaluate-limit_le_example :
    (m : ℤ) × (sonnet_decision.effective_max_output_tokens ≡ some m) × (m ≤ℤ pos 4096)
evaluate-limit_le_example =
    evaluate-limit_le engineer "claude-sonnet-4" rules sonnet_decision refl refl evaluate_sonnet
      limit_rule (pos 4096) limit-Applies refl limit_number

numbers_in_rules :
    (p : PolicyRecord)
    → Applies engineer rules p
    → is_limit p ≡ true
    → (n : ℤ) × (int_of_text p.rule_value ≡ some n)
numbers_in_rules p (i, _, _) t = of_place i t
  where
    of_place : In p rules → is_limit p ≡ true → (n : ℤ) × (int_of_text p.rule_value ≡ some n)
    of_place (here e) t =
        (pos 4096, ap (λ (z : PolicyRecord). int_of_text z.rule_value) e ∙ limit_number)
    of_place (there (here e)) t = absurd (false≢true (sym (ap is_limit e) ∙ t))
    of_place (there (there (here e))) t = absurd (false≢true (sym (ap is_limit e) ∙ t))
    of_place (there (there (there i))) t = elim i [ ]

In-collect_policies_by_scope_example :
    In deny_rule (collect_policies_by_scope engineer rules).1
    ↔ (In deny_rule rules × (deny_rule.is_active ≡ true) × Concerns engineer deny_rule)
In-collect_policies_by_scope_example = In-collect_policies_by_scope engineer rules deny_rule
