-- ===== src/Tests/Router.antt =====
-- api/proxy_router.py over a ledger with one key, one model, and a world that counts the calls of Bedrock.
use claude_code_proxy.Prelude.{
  ℕ, ◌+◌, String, Bool, true, false, none, some, List, [], ◌∷◌, ◌≡◌, ◌⊎◌, refl, some_inj, str_eq,
  if◌then◌else◌,
}
use claude_code_proxy.Prelude.Int.{pos}
use claude_code_proxy.Json.{Value, bool, text, array, object, Fields, fields}
use claude_code_proxy.Exec.{Exec, ok}
use claude_code_proxy.Domain.{UserRecord, ModelAliasRuleRecord, ModelRouteRecord}
use claude_code_proxy.RateLimiter.{InMemoryRateLimiter}
use claude_code_proxy.Audit.{AuditServices}
use claude_code_proxy.Converse.Request.Build.{ConverseRequest}
use claude_code_proxy.Router.{ProxyDependencies}
use claude_code_proxy.Router.Quiet.{IsQuiet}
use claude_code_proxy.Router.Admission.{Denied, IsAdmitted}
use claude_code_proxy.Router.Admission.Handler.{create_message-IsAdmitted}
use claude_code_proxy.Router.CreateMessage.{create_message}
use claude_code_proxy.Tests.Fixtures.{alice, plain, found_key, whole}

abbrev pub shown : Value → String
shown v = "?"

-- The rate limiter, what was recorded, and the calls of Bedrock.
pub record World : Type 0 where
  pub limiter : InMemoryRateLimiter
  pub usages : List String
  pub audits : List String
  pub calls : ℕ

abbrev pub rule : ModelAliasRuleRecord
rule = record {
  id = "a1";
  pattern_ = "claude";
  logical_model = "sonnet";
  priority = pos 1;
  is_active = true;
}

abbrev pub route : ModelRouteRecord
route = record {
  id = "m1";
  logical_model = "sonnet";
  provider = "bedrock";
  bedrock_api_route = "converse";
  bedrock_model_id = some "sonnet-v1";
  inference_profile_id = none;
  supports_native_structured_output = false;
  supports_reasoning = false;
  supports_prompt_cache_ttl = false;
  supports_disable_parallel_tool_use = false;
  priority = pos 1;
  is_active = true;
}

abbrev called : Fields → ConverseRequest → Exec World Fields
called response request w = (ok response, record w { calls = w.calls + 1 })

abbrev pub logger : AuditServices World ℕ
logger = record {
  record_usage = λ u w. (ok tt, record w { usages = u.user_id ∷ w.usages });
  record_audit = λ a w. (ok tt, record w { audits = a.event_type ∷ w.audits });
  clock = λ w. (ok 7, w);
  event_id_generator = λ w. (ok "e1", w);
  zero_cost = 0;
}

abbrev pub answered : Fields
answered = fields (
    (
      "output",
      object (
          (
            "message",
            object (
                ("role", text "assistant")
                ∷ ("content", array (object (("text", text "hi") ∷ []) ∷ []))
                ∷ []),
          )
          ∷ []),
    )
    ∷ ("stopReason", text "end_turn")
    ∷ [])

abbrev pub dependencies : UserRecord → ProxyDependencies World ℕ ℕ
dependencies user = record {
  hash_virtual_key = plain;
  auth_repositories = record {
    get_key_by_hash = λ hash w. (ok (found_key hash), w);
    get_user = λ id_ w. (ok (if str_eq id_ "u1" then some user else none), w);
  };
  model_repositories = record {
    list_alias_rules = λ w. (ok (rule ∷ []), w);
    list_model_routes = λ w. (ok (route ∷ []), w);
  };
  get_active_pricing = none;
  clock = λ w. (ok 60000000, w);
  limiter_of = λ w. w.limiter;
  with_limiter = λ l w. record w { limiter = l };
  bedrock_client = record {
    converse = called answered;
    converse_stream = λ request w. (ok [], record w { calls = w.calls + 1 });
    count_tokens = called (fields (("inputTokens", text "12") ∷ []));
  };
  audit_logger = some logger;
  request_scope = record {
    state_request_id = λ w. (ok (text "r1"), w);
    set_state_request_id = λ s w. (ok tt, w);
    request_id_generator = λ w. (ok "r0", w);
  };
  timer = record { perf_counter = λ w. (ok 0, w); milliseconds_between = λ a b. 3 };
}

abbrev pub start : World
start = record {
  limiter = record { requests_per_minute = 1; request_windows = [] };
  usages = [];
  audits = [];
  calls = 0;
}

abbrev pub request : Bool → Fields
request stream = fields (
    ("model", text "claude")
    ∷ ("messages", array (object (("role", text "user") ∷ ("content", text "hi") ∷ []) ∷ []))
    ∷ ("stream", bool stream)
    ∷ [])

abbrev Uncalled : World → Type 0
Uncalled w = w.calls ≡ 0

dependencies-IsQuiet : IsQuiet Uncalled (dependencies alice)
dependencies-IsQuiet = record {
  keys = λ k. record { run = λ w p. p };
  users = λ k. record { run = λ w p. p };
  rules = record { run = λ w p. p };
  routes = record { run = λ w p. p };
  pricing = λ r e m. cc e;
  clock = record { run = λ w p. p };
  limiter = λ l w p. p;
  audits = λ l e.
      rw (← some_inj e)
        (record { run = λ w p. p }, record { run = λ w p. p }, λ r. record { run = λ w p. p });
  scope_read = record { run = λ w p. p };
  scope_written = λ s. record { run = λ w p. p };
  scope_generated = record { run = λ w p. p };
  counter = record { run = λ w p. p };
}

create_message-IsAdmitted_example :
    IsAdmitted shown whole (dependencies alice) (some "Bearer vk_abc") (Value.dict (request false))
    ⊎ Denied Uncalled (
        create_message shown whole
          (dependencies alice)
          (some "Bearer vk_abc")
          (Value.dict (request false))
          start)
create_message-IsAdmitted_example =
    create_message-IsAdmitted Uncalled shown whole (dependencies alice) dependencies-IsQuiet
      (some "Bearer vk_abc") (Value.dict (request false)) start refl
