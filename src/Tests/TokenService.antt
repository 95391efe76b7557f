-- ===== src/Tests/TokenService.antt =====
-- token_service/ for one registered user, with an empty cache and an empty ledger.
use claude_code_proxy.Prelude.{
  ◌↔◌, ℕ, String, Option, none, some, [], ◌∷◌, ◌≡◌, ◌⊎◌, refl, str_eq, if◌then◌else◌,
}
use claude_code_proxy.Prelude.Int.{pos}
use claude_code_proxy.Json.{text, dict, object, Fields, fields}
use claude_code_proxy.Exec.{ok}
use claude_code_proxy.Domain.{TokenIssueResult, UserRecord, active, cache, issued}
use claude_code_proxy.Keys.{get_virtual_key_prefix}
use claude_code_proxy.Text.{strip, after_last_slash, take_chars, is_space}
use claude_code_proxy.TokenService.Issue.{
  IssueServices, get_or_create_key, on_cache, require_allowed_user, check_user, from_ledger,
  cache_key_record, issue_new_key,
}
use claude_code_proxy.TokenService.Issue.Gate.{Permitted, get_or_create_key-Permitted}
use claude_code_proxy.TokenService.Identity.{
  HasArn, IsUsername, extract_user_arn, extract_identity_section, arn_or_error,
  parse_username_from_user_arn, extract_username_from_event, extract_username_from_event-IsUsername,
}
use claude_code_proxy.TokenService.Handler.{
  TokenServiceHandlerDependencies, Response, handle_get_or_create_key,
}
use claude_code_proxy.TokenService.Handler.Outcome.{
  Returns, IsReliable, Outcome, handle_get_or_create_key-Returns,
}
use claude_code_proxy.Tests.Fixtures.{alice}

abbrev found_user : String → Option UserRecord
found_user id_ = if str_eq id_ "u1" then some alice else none

abbrev services : IssueServices (Unit {0})
services = record {
  get_user = λ id_ w. (ok (found_user id_), w);
  get_active_key_for_user = λ id_ w. (ok none, w);
  save_key = λ r w. (ok tt, w);
  key_cache = record {
    get_active_key = λ id_ now w. (ok none, w);
    put_active_key = λ e w. (ok tt, w);
    invalidate_user = λ id_ w. (ok tt, w);
  };
  encrypt = λ key w. (ok key, w);
  decrypt = λ blob w. (ok blob, w);
  clock = λ w. (ok 7000000, w);
  key_generator = λ w. (ok "vk_0123456789abcdef", w);
  uuid = λ w. (ok "k9", w);
  hash_virtual_key = λ key. key;
  cache_ttl = 900000000;
}

abbrev new_key : TokenIssueResult
new_key = record {
  virtual_key = "vk_0123456789abcdef";
  user_id = "u1";
  key_id = "k9";
  key_prefix = "vk_012345678";
  status = active;
  source = issued;
  expires_at = none;
}

key_for_alice : get_or_create_key services "u1" "r1" tt ≡ (ok new_key, tt)
unfolding get_or_create_key on_cache require_allowed_user check_user from_ledger issue_new_key
    cache_key_record get_virtual_key_prefix take_chars
key_for_alice = refl

get_or_create_key-Permitted_example : (new_key.source ≡ cache) ⊎ Permitted services "u1" new_key
get_or_create_key-Permitted_example =
    get_or_create_key-Permitted services "u1" "r1" tt tt new_key key_for_alice

abbrev arn : String
arn = "arn:aws:sts::1:assumed-role/dev/alice"

abbrev context : Fields
context = fields (("requestId", text "r1") ∷ ("identity", object (("userArn", text arn) ∷ [])) ∷ [])

abbrev event : Fields
event = fields (("requestContext", dict context) ∷ [])

username_of_event : extract_username_from_event event ≡ ok "alice"
unfolding extract_username_from_event extract_user_arn extract_identity_section arn_or_error
    parse_username_from_user_arn strip is_space after_last_slash
username_of_event = refl

extract_username_from_event-IsUsername_example :
    (extract_username_from_event event ≡ ok "alice")
    ↔ ((user_arn : String) × HasArn event user_arn × IsUsername user_arn "alice")
extract_username_from_event-IsUsername_example =
    extract_username_from_event-IsUsername event "alice"

abbrev user_id_of : String → Option String
user_id_of name = if str_eq name "alice" then some "u1" else none

abbrev dependencies : TokenServiceHandlerDependencies (Unit {0}) ℕ
dependencies = record {
  get_user_id_for_username = λ name w. (ok (user_id_of name), w);
  get_or_create_key = get_or_create_key services;
  request_id_generator = λ w. (ok "r0", w);
  metrics = none;
  perf_counter = λ w. (ok 0, w);
  elapsed_ms = λ a b. pos 0;
  warning = λ v w. (ok tt, w);
}

abbrev key_response : Response
key_response = record {
  status_code = 200;
  headers = ("Content-Type", "application/json") ∷ [];
  body = object (
      ("virtual_key", text "vk_0123456789abcdef")
      ∷ ("user_id", text "u1")
      ∷ ("key_id", text "k9")
      ∷ ("key_prefix", text "vk_012345678")
      ∷ ("request_id", text "r1")
      ∷ []);
}

dependencies-IsReliable : IsReliable dependencies
dependencies-IsReliable = record {
  request_id_generator = λ w. ("r0", w, refl);
  perf_counter = λ w. (0, w, refl);
  warning = λ v w. (tt, w, refl);
  increment = λ r name tags h. cc h;
  observe = λ r name value tags h. cc h;
}

handle_get_or_create_key-Returns_example : Returns (handle_get_or_create_key dependencies event)
handle_get_or_create_key-Returns_example =
    handle_get_or_create_key-Returns dependencies dependencies-IsReliable event context refl
