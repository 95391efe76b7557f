-- ===== src/Converse/Request/Reasoning.antt =====
-- proxy/bedrock_converse/request_builder.py: when a request reasons, and with which budget.
use claude_code_proxy.Prelude.{
  String, Bool, true, false, not, ◌&&◌, Option, none, some, List, [], ◌∷◌, any, str_eq, ◌≡◌, refl,
  arith, ◌⊎◌, inl, inr, if◌then◌else◌, Bool-cases,
}
use claude_code_proxy.Prelude.Int.{ℤ, pos, negsuc, max_ℤ, ◌≤ℤ◌}
use claude_code_proxy.Json.{
  Value, null, bool, int, real, text, list, dict, get_field_or, is_none, is_text, truthy,
}
use claude_code_proxy.Json.Convert.{int_of_value}
use claude_code_proxy.Exec.{Result, Result-cases, ok, ◌>>?◌, ok_inj}
use claude_code_proxy.Converse.Request.{coerce_blocks}

-- REASONING_BUDGETS.get(effort, REASONING_BUDGETS["medium"])
unfoldable pub budget_of_effort : String → ℤ
budget_of_effort effort =
    if str_eq effort "low" then pos 1024 else if str_eq effort "high" then pos 8192 else pos 4096

abbrev pub min_reasoning_budget_tokens : ℤ
min_reasoning_budget_tokens = pos 1024

unfoldable pub effort_budget : Value → Result ℤ
effort_budget (text effort) = ok (budget_of_effort effort)
effort_budget v = ok min_reasoning_budget_tokens

unfoldable pub reasoning_budget : Value → Value → Result ℤ
reasoning_budget (dict m) effort =
    let budget = get_field_or "budget_tokens" null m in
    if is_none budget
    then effort_budget effort
    else (int_of_value budget >>? λ n. ok (max_ℤ n min_reasoning_budget_tokens))
reasoning_budget v effort = effort_budget effort

-- _normalize_reasoning_request: the budget of the thinking that is enabled
unfoldable pub normalize_reasoning_request : Bool → Value → Value → Result (Option ℤ)
normalize_reasoning_request supports_reasoning thinking effort =
    if not supports_reasoning
    then ok none
    else if is_none thinking && is_none effort
    then ok none
    else (reasoning_budget thinking effort >>? λ n. ok (some n))

abbrev is_tool_use : Value → Bool
is_tool_use (dict m) = is_text "tool_use" (get_field_or "type" null m)
is_tool_use v = false

-- An assistant's message, asked whether its tool use comes without the thinking before it.
unfoldable pub breaks_continuity : Value → Result Bool
breaks_continuity (dict m) =
    if not (is_text "assistant" (get_field_or "role" null m))
    then ok false
    else (coerce_blocks (get_field_or "content" null m) >>? λ blocks.
        ok (any is_tool_use blocks && not (truthy (get_field_or "thinking_blocks" null m))))
breaks_continuity v = ok false

-- _has_reasoning_continuity, of a list: the first message that breaks it ends the loop
unfoldable pub has_reasoning_continuity : List Value → Result Bool
has_reasoning_continuity [] = ok true
has_reasoning_continuity (v ∷ vs) = breaks_continuity v >>? λ broken. elim broken [
  | true ↦ ok false
  | false ↦ has_reasoning_continuity vs
]

abbrev pub IsBudget : Option ℤ → Type 0
IsBudget none = Unit {0}
IsBudget (some n) = min_reasoning_budget_tokens ≤ℤ n

max-budget : (n : ℤ) → min_reasoning_budget_tokens ≤ℤ max_ℤ n min_reasoning_budget_tokens
max-budget (pos n) = ground arith
max-budget (negsuc n) = ground arith

effort-budget : (v : Value) (n : ℤ) → effort_budget v ≡ ok n → min_reasoning_budget_tokens ≤ℤ n
unfolding effort_budget budget_of_effort
effort-budget null n h = rw (← ok_inj h) (omega arith)
effort-budget (bool x) n h = rw (← ok_inj h) (omega arith)
effort-budget (int x) n h = rw (← ok_inj h) (omega arith)
effort-budget (real x) n h = rw (← ok_inj h) (omega arith)
effort-budget (list x) n h = rw (← ok_inj h) (omega arith)
effort-budget (dict x) n h = rw (← ok_inj h) (omega arith)
effort-budget (text x) n h =
    rw (← ok_inj h) (ground (arith, Bool-cases (str_eq x "low"), Bool-cases (str_eq x "high")))

chosen-budget :
    (v e : Value) (n : ℤ) → reasoning_budget v e ≡ ok n → min_reasoning_budget_tokens ≤ℤ n
unfolding reasoning_budget
chosen-budget (dict m) e n h = elim (Bool-cases (is_none (get_field_or "budget_tokens" null m))) [
  | inl b ↦ effort-budget e n (rw b at h)
  | inr b ↦ elim (Result-cases (int_of_value (get_field_or "budget_tokens" null m))) [
    | inl (k, q) ↦ rw (← ok_inj (rw (b, q) at h)) (max-budget k)
    | inr (x, q) ↦ cc (rw (b, q) at h)
  ]
]
chosen-budget null e n h = effort-budget e n h
chosen-budget (bool x) e n h = effort-budget e n h
chosen-budget (int x) e n h = effort-budget e n h
chosen-budget (real x) e n h = effort-budget e n h
chosen-budget (text x) e n h = effort-budget e n h
chosen-budget (list x) e n h = effort-budget e n h

-- A request whose model does not support reasoning has no reasoning budget, and any budget that a
-- request gets is at least 1024 tokens, whatever number the client asks for.
pub normalize_reasoning_request-IsBudget :
    (supported : Bool) (thinking effort : Value) (o : Option ℤ)
    → normalize_reasoning_request supported thinking effort ≡ ok o
    → ((supported ≡ true) ⊎ (o ≡ none)) × IsBudget o
unfolding normalize_reasoning_request
normalize_reasoning_request-IsBudget false thinking effort o h = rw (← ok_inj h) (inr refl, tt)
normalize_reasoning_request-IsBudget true thinking effort o h = (
  inl refl,
  elim (Bool-cases (is_none thinking && is_none effort)) [
    | inl b ↦ rw (← ok_inj (rw b at h)) tt
    | inr b ↦ elim (Result-cases (reasoning_budget thinking effort)) [
      | inl (n, q) ↦ rw (← ok_inj (rw (b, q) at h)) (chosen-budget thinking effort n q)
      | inr (x, q) ↦ cc (rw (b, q) at h)
    ]
  ],
)
