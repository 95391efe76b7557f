-- ===== src/Tests/Audit.antt =====
-- proxy/audit_logger.py over a repository that keeps the records in lists.
use claude_code_proxy.Prelude.{ℕ, true, none, some, List, [], ◌∷◌, ◌++◌, ◌≡◌, refl}
use claude_code_proxy.Prelude.Int.{pos}
use claude_code_proxy.Json.{null, int, Fields, fields}
use claude_code_proxy.Json.Convert.{int_of_value}
use claude_code_proxy.Exec.{ok}
use claude_code_proxy.Domain.{
  UserContext, AuthenticatedRequestContext, UsageEventRecord, AuditEventRecord,
}
use claude_code_proxy.Policy.{PolicyDecision}
use claude_code_proxy.Converse.Response.{count_of}
use claude_code_proxy.Audit.{
  AuditServices, record_success, record_denial, usage_event, success_event, denial_event, user_of,
  actor_of,
}
use claude_code_proxy.Tests.Fixtures.{alice}

abbrev Kept : Type 0
Kept = List (UsageEventRecord ℕ) × List AuditEventRecord

abbrev lists : AuditServices Kept ℕ
lists = record {
  record_usage = λ u w. (ok tt, (w.0 ++ (u ∷ []), w.1));
  record_audit = λ a w. (ok tt, (w.0, w.1 ++ (a ∷ [])));
  clock = λ w. (ok 7, w);
  event_id_generator = λ w. (ok "e1", w);
  zero_cost = 0;
}

abbrev alice_user : UserContext
alice_user = record {
  user_id = "u1";
  email = some "alice@example.com";
  groups = "ml" ∷ [];
  department = some "eng";
}

abbrev alice_context : AuthenticatedRequestContext
alice_context = record {
  request = record { request_id = "r1"; user = some alice_user };
  user_record = alice;
  virtual_key_id = "k1";
  key_hash = "vk_abc";
  key_prefix = "vk_abc";
}

abbrev allowed : PolicyDecision
allowed = record {
  allowed = true;
  denial_reason = none;
  effective_max_output_tokens = none;
  trace = record { evaluated_scopes = "user_status" ∷ []; matched_policy_ids = [] };
}

abbrev usage : Fields
usage = fields (("input_tokens", int (pos 12)) ∷ ("output_tokens", int (pos 3)) ∷ [])

abbrev usage_record : UsageEventRecord ℕ
usage_record = record {
  id = "e1";
  request_id = "r1";
  user_id = "u1";
  user_email = some "alice@example.com";
  requested_model = "claude";
  resolved_model = none;
  pricing_catalog_id = none;
  input_tokens = pos 12;
  output_tokens = pos 3;
  total_tokens = pos 0;
  cache_write_input_tokens = pos 0;
  cache_read_input_tokens = pos 0;
  cache_details = null;
  estimated_input_cost_usd = 0;
  estimated_output_cost_usd = 0;
  estimated_cache_write_cost_usd = 0;
  estimated_cache_read_cost_usd = 0;
  estimated_total_cost_usd = 0;
  latency_ms = none;
  team_id = none;
  created_at = 7;
}

abbrev after_success : Kept
after_success =
    (usage_record ∷ [], success_event lists 7 "e1" "r1" alice_user "claude" none allowed ∷ [])

success_recorded :
    record_success lists alice_context "r1" "claude" none allowed usage none none ([], [])
    ≡ (ok tt, after_success)
unfolding record_success usage_event user_of count_of int_of_value
success_recorded = refl

abbrev after_denial : Kept
after_denial = (
  [],
  denial_event lists 7 "e1" "r1" "rate_limited" (some alice_user) (some "claude") none
        (some allowed)
      ∷ [],
)

denial_recorded :
    record_denial lists "r1" "rate_limited"
      (some alice_context)
      (some "claude")
      none
      (some allowed)
      ([], [])
    ≡ (ok tt, after_denial)
unfolding record_denial actor_of user_of
denial_recorded = refl
