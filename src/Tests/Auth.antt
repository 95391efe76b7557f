-- ===== src/Tests/Auth.antt =====
-- proxy/auth.py and api/errors.py over a ledger with one key, whose hash is the key itself.
use claude_code_proxy.Prelude.{
  String, Option, none, some, arith, ◌≤◌, ◌≡◌, ◌↔◌, refl, str_eq, if◌then◌else◌,
}
use claude_code_proxy.Errors.{rate_limit_exceeded_error}
use claude_code_proxy.Exec.{Exn, ok, raised, service}
use claude_code_proxy.Domain.{UserRecord, AuthenticatedRequestContext}
use claude_code_proxy.Text.{strip, partition_blank, has_prefix, is_space}
use claude_code_proxy.Auth.{
  AuthRepositories, authenticate, extract_virtual_key, restore_trusted_request_context,
  authentication_error,
}
use claude_code_proxy.Auth.Context.{Trusted, authenticate-Trusted}
use claude_code_proxy.Auth.Extraction.{Carries, extract_virtual_key-Carries}
use claude_code_proxy.ErrorResponses.{error_response_for_exception}
use claude_code_proxy.ErrorResponses.Status.{
  IsErrorFor, IsUnauthenticated, error_response_for_exception-IsErrorFor,
  authenticate-IsUnauthenticated,
}
use claude_code_proxy.Tests.Fixtures.{alice, plain, found_key}

abbrev found_user : String → Option UserRecord
found_user id_ = if str_eq id_ "u1" then some alice else none

abbrev one_key : AuthRepositories (Unit {0})
one_key = record {
  get_key_by_hash = λ hash w. (ok (found_key hash), w);
  get_user = λ id_ w. (ok (found_user id_), w);
}

abbrev trusted_alice : AuthenticatedRequestContext
trusted_alice = restore_trusted_request_context "r1" alice "k1" "vk_abc" "vk_abc"

authenticate_alice :
    authenticate plain one_key (some "Bearer vk_abc") "r1" tt ≡ (ok trusted_alice, tt)
unfolding authenticate extract_virtual_key strip partition_blank has_prefix is_space
authenticate_alice = refl

authenticate_unknown :
    (authenticate plain one_key (some "Bearer vk_xyz") "r1" tt).0
    ≡ raised (authentication_error "r1" "unknown_virtual_key")
unfolding authenticate extract_virtual_key strip partition_blank has_prefix is_space
authenticate_unknown = refl

authenticate-Trusted_example : Trusted plain one_key (some "Bearer vk_abc") "r1" tt tt trusted_alice
authenticate-Trusted_example =
    authenticate-Trusted plain one_key (some "Bearer vk_abc") "r1" tt tt trusted_alice
      authenticate_alice

extract_virtual_key-Carries_example :
    (extract_virtual_key (some "Bearer  vk_abc ") "r1" ≡ ok "vk_abc")
    ↔ Carries "Bearer  vk_abc " "vk_abc"
extract_virtual_key-Carries_example = extract_virtual_key-Carries "Bearer  vk_abc " "r1" "vk_abc"

authenticate-IsUnauthenticated_example :
    IsUnauthenticated "r1"
      (error_response_for_exception (authentication_error "r1" "unknown_virtual_key") "r1")
authenticate-IsUnauthenticated_example =
    authenticate-IsUnauthenticated plain one_key (some "Bearer vk_xyz") "r1" tt
      (authentication_error "r1" "unknown_virtual_key") (λ hash v. (found_key hash, v, refl))
      (λ id_ v. (found_user id_, v, refl)) authenticate_unknown

abbrev limited : Exn
limited = service (rate_limit_exceeded_error "r1" none none "Rate limit exceeded.")

limited_status : (400 ≤ 429) × ◌≡◌ {A = String} "r1" "r1"
limited_status = (omega arith, refl)

error_response_for_exception-IsErrorFor_example :
    IsErrorFor "r1" (error_response_for_exception limited "r1")
unfolding rate_limit_exceeded_error
error_response_for_exception-IsErrorFor_example =
    error_response_for_exception-IsErrorFor limited "r1" limited_status
