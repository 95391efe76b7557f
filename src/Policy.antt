-- ===== src/Policy.antt =====
-- proxy/policy_engine.py: which policies apply to a user, and whether they let him use a model.
pub mod Scopes
pub mod Decision
pub mod Limits
use Prim.Native.String.{◌++◌ as str_append}
use claude_code_proxy.Prelude.{
  String, Bool, true, false, not, ◌&&◌, ◌||◌, Option, none, some, List, [], ◌∷◌, ◌++◌, map, filter,
  any, find, str_eq, if◌then◌else◌,
}
use claude_code_proxy.Prelude.Int.{ℤ, min_ℤ}
use claude_code_proxy.Exec.{Result, ok, raised, other, ◌>>?◌}
use claude_code_proxy.Domain.{UserRecord, PolicyRecord}
use claude_code_proxy.Glob.{fnmatchcase}
use claude_code_proxy.Text.Number.{int_of_text}

pub record PolicyEvaluationTrace : Type 0 where
  pub evaluated_scopes : List String
  pub matched_policy_ids : List String

pub record PolicyDecision : Type 0 where
  pub allowed : Bool
  pub denial_reason : Option String
  pub effective_max_output_tokens : Option ℤ
  pub trace : PolicyEvaluationTrace

abbrev pub blocked_user : String → PolicyDecision
blocked_user reason = record {
  allowed = false;
  denial_reason = some reason;
  effective_max_output_tokens = none;
  trace = record { evaluated_scopes = "user_status" ∷ []; matched_policy_ids = [] };
}

-- The scopes of a user in the order of `scopes`, None for a department that he lacks.
abbrev Scope : Type 0
Scope = String × Option String

pub scopes_of : UserRecord → List Scope
scopes_of user =
    ("user", some user.id) ∷ map (λ g. ("group", some g)) user.groups
    ++ ("department", user.department) ∷ ("global", none) ∷ []

-- scope_id of a policy against the one of a scope
abbrev same_id : String → Option String → Bool
same_id s none = false
same_id s (some t) = str_eq s t

abbrev pub is_global : PolicyRecord → Bool
is_global p = p.is_active && str_eq p.scope_type "global"

abbrev pub in_scope : String → Option String → PolicyRecord → Bool
in_scope type_ id_ p = p.is_active && (str_eq p.scope_type type_ && same_id p.scope_id id_)

-- f"{scope_type}:{scope_id}"
abbrev scope_label : String → Option String → String
scope_label type_ none = str_append type_ ":None"
scope_label type_ (some id_) = str_append type_ (str_append ":" id_)

-- The loop over the scopes: the trace that it appends and the policies that it collects.
collect : List Scope → List PolicyRecord → List String × List PolicyRecord
collect [] policies = ([], [])
collect ((type_, id_) ∷ scopes) policies =
    let rest = collect scopes policies in
    if str_eq type_ "department" && (elim id_ [ none ↦ true | some d ↦ false ])
    then rest
    else if str_eq type_ "global"
    then ("global" ∷ rest.0, filter is_global policies ++ rest.1)
    else (scope_label type_ id_ ∷ rest.0, filter (in_scope type_ id_) policies ++ rest.1)

unfoldable pub collect_policies_by_scope :
    UserRecord → List PolicyRecord → List String × List PolicyRecord
unfolding scopes_of collect
collect_policies_by_scope user policies =
    let found = collect (scopes_of user) policies in ("user_status" ∷ found.0, found.1)

abbrev pub is_limit : PolicyRecord → Bool
is_limit p = str_eq p.rule_type "max_output_tokens"

-- [int(policy.rule_value) for policy in policies if ...]
unfoldable pub token_limits : List PolicyRecord → Result (List ℤ)
token_limits [] = ok []
token_limits (p ∷ ps) = elim (is_limit p) [
  | false ↦ token_limits ps
  | true ↦ elim (int_of_text p.rule_value) [
    | none ↦ raised (other "ValueError")
    | some n ↦ token_limits ps >>? λ ns. ok (n ∷ ns)
  ]
]

abbrev pub least : ℤ → List ℤ → ℤ
least n [] = n
least n (m ∷ ms) = least (min_ℤ n m) ms

abbrev pub least? : List ℤ → Option ℤ
least? [] = none
least? (n ∷ ns) = some (least n ns)

unfoldable pub resolve_effective_max_output_tokens : List PolicyRecord → Result (Option ℤ)
unfolding token_limits
resolve_effective_max_output_tokens policies = token_limits policies >>? λ ns. ok (least? ns)

unfoldable pub rule_matches_model : PolicyRecord → String → Bool
rule_matches_model p model = fnmatchcase model p.rule_value

abbrev pub is_deny : PolicyRecord → Bool
is_deny p = str_eq p.rule_type "deny_model"

abbrev pub is_allow : PolicyRecord → Bool
is_allow p = str_eq p.rule_type "allow_model"

abbrev pub denies : String → PolicyRecord → Bool
denies model p = is_deny p && rule_matches_model p model

abbrev pub allows : String → PolicyRecord → Bool
allows model p = is_allow p && rule_matches_model p model

-- What `evaluate` does once the policies are collected and the limit is known.
abbrev pub decide : String → List PolicyRecord → Option ℤ → PolicyEvaluationTrace → PolicyDecision
decide model policies limit trace = elim (find (denies model) policies) [
  | some p ↦ record {
    allowed = false;
    denial_reason = some "model_denied";
    effective_max_output_tokens = limit;
    trace = trace;
  }
  | none ↦
      if any (λ p. is_allow p || is_deny p) policies && not (any (allows model) policies)
      then record {
        allowed = false;
        denial_reason = some "model_not_allowed";
        effective_max_output_tokens = limit;
        trace = trace;
      }
      else record {
        allowed = true;
        denial_reason = none;
        effective_max_output_tokens = limit;
        trace = trace;
      }
]

abbrev pub trace_of : List String × List PolicyRecord → PolicyEvaluationTrace
trace_of (scopes, policies) = record {
  evaluated_scopes = scopes;
  matched_policy_ids = map (λ p. p.id) policies;
}

unfoldable pub evaluate : UserRecord → String → List PolicyRecord → Result PolicyDecision
evaluate user model policies =
    if not user.is_active
    then ok (blocked_user "user_inactive")
    else if not user.proxy_access_enabled
    then ok (blocked_user "proxy_access_disabled")
    else (let collected = collect_policies_by_scope user policies in
        resolve_effective_max_output_tokens collected.1 >>? λ limit.
        ok (decide model collected.1 limit (trace_of collected)))
