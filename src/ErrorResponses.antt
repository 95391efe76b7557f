-- ===== src/ErrorResponses.antt =====
-- api/errors.py: the HTTP response for an exception.
pub mod Status
use claude_code_proxy.Prelude.{
  ℕ, String, Option, none, some, List, [], ◌∷◌, ◌++◌, Dict, ◌≡◌, refl, ◌⊎◌, inl, inr,
}
use claude_code_proxy.Json.{Value, text, object}
use claude_code_proxy.Errors.{
  ServiceError, ErrorCode, invalid_request_error, upstream_failure_error, user_not_registered,
  access_denied, authentication_failed, invalid_identity, invalid_request, rate_limit_exceeded,
  upstream_failure, internal_error,
}
use claude_code_proxy.Exec.{
  Exn, service, request_build, model_resolution, identity_resolution, http, other,
}

pub record JsonResponse : Type 0 where
  pub status_code : ℕ
  pub content : Value
  pub headers : Dict String

-- `if details`, and `dict(headers or {})`
abbrev details_entry : Option (Dict Value) → Dict Value
details_entry none = []
details_entry (some []) = []
details_entry (some (e ∷ m)) = ("details", object (e ∷ m)) ∷ []

abbrev headers_or_empty : Option (Dict String) → Dict String
headers_or_empty none = []
headers_or_empty (some m) = m

unfoldable pub anthropic_error_response :
    ℕ → String → String → String → Option (Dict String) → Option (Dict Value) → JsonResponse
anthropic_error_response status error_type message rid headers details = record {
  status_code = status;
  content = object (
      ("type", text "error")
      ∷ (
        "error",
        object (("type", text error_type) ∷ ("message", text message) ∷ details_entry details),
      )
      ∷ ("request_id", text rid)
      ∷ []);
  headers = headers_or_empty headers;
}

-- the choice of `error_type` in service_error_response
unfoldable pub error_type_of : ErrorCode → String
error_type_of authentication_failed = "authentication_error"
error_type_of access_denied = "permission_error"
error_type_of rate_limit_exceeded = "rate_limit_error"
error_type_of invalid_request = "invalid_request_error"
error_type_of invalid_identity = "invalid_request_error"
error_type_of internal_error = "api_error"
error_type_of upstream_failure = "api_error"
error_type_of user_not_registered = "invalid_request_error"

unfoldable pub service_error_response : ServiceError → JsonResponse
unfolding anthropic_error_response error_type_of
service_error_response e =
    anthropic_error_response e.status_code (error_type_of e.code) e.message e.request_id e.headers
      e.details

-- error.__class__.__name__
unfoldable pub class_name : Exn → String
class_name (service e) = "ServiceError"
class_name (request_build r m) = "BedrockRequestBuildError"
class_name (model_resolution q r m) = "ModelResolutionError"
class_name (identity_resolution m) = "IdentityResolutionError"
class_name (http s d) = "HTTPException"
class_name (other c) = c

abbrev reason_details : String → Option (Dict Value)
reason_details reason = some (("reason", text reason) ∷ [])

unfoldable pub normalize_exception : Exn → String → ServiceError
unfolding class_name
normalize_exception (service e) rid = e
normalize_exception (request_build reason message) rid =
    invalid_request_error rid message (reason_details reason)
normalize_exception (model_resolution q reason message) rid =
    invalid_request_error rid message (reason_details reason)
normalize_exception e rid =
    upstream_failure_error rid (reason_details (class_name e)) "Upstream request failed." 502

unfoldable pub error_response_for_exception : Exn → String → JsonResponse
error_response_for_exception e rid = service_error_response (normalize_exception e rid)
