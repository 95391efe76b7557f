-- ===== src/Errors.antt =====
-- models/errors.py: the errors that the services raise and the envelopes that they become.
use claude_code_proxy.Prelude.{ℕ, String, Option, none, some, [], ◌∷◌, Dict}
use claude_code_proxy.Json.{Value, text, object}

pub data ErrorCode : Type 0 where
  user_not_registered access_denied authentication_failed invalid_identity : ErrorCode
  invalid_request rate_limit_exceeded upstream_failure internal_error : ErrorCode

-- ErrorCode.value
unfoldable pub code_value : ErrorCode → String
code_value user_not_registered = "user_not_registered"
code_value access_denied = "access_denied"
code_value authentication_failed = "authentication_failed"
code_value invalid_identity = "invalid_identity"
code_value invalid_request = "invalid_request"
code_value rate_limit_exceeded = "rate_limit_exceeded"
code_value upstream_failure = "upstream_failure"
code_value internal_error = "internal_error"

pub record ErrorInfo : Type 0 where
  pub type_ : ErrorCode
  pub message : String
  pub request_id : String
  pub details : Option (Dict Value)

-- `if self.details`: an empty dict is left out like None
abbrev details_entry : Option (Dict Value) → Dict Value
details_entry none = []
details_entry (some []) = []
details_entry (some (e ∷ m)) = ("details", object (e ∷ m)) ∷ []

pub info_dict : ErrorInfo → Value
unfolding code_value
info_dict i = object (
    ("type", text (code_value i.type_))
    ∷ ("message", text i.message)
    ∷ ("request_id", text i.request_id)
    ∷ details_entry i.details)

pub record ErrorEnvelope : Type 0 where
  pub error : ErrorInfo

pub envelope_dict : ErrorEnvelope → Value
unfolding info_dict
envelope_dict e = object (("error", info_dict e.error) ∷ [])

pub record ServiceError : Type 0 where
  pub code : ErrorCode
  pub message : String
  pub status_code : ℕ
  pub request_id : String
  pub details : Option (Dict Value)
  pub headers : Option (Dict String)

pub to_envelope : ServiceError → ErrorEnvelope
to_envelope e = record {
  error = record {
    type_ = e.code;
    message = e.message;
    request_id = e.request_id;
    details = e.details;
  };
}

unfoldable pub build_error_envelope : ServiceError → Value
unfolding to_envelope envelope_dict
build_error_envelope e = envelope_dict (to_envelope e)

-- The functions that build errors take the keyword arguments of the source, defaults included.
unfoldable pub user_not_registered_error : String → Option (Dict Value) → ServiceError
user_not_registered_error rid details = record {
  code = user_not_registered;
  message = "The caller is not provisioned for Claude Code Proxy.";
  status_code = 403;
  request_id = rid;
  details = details;
  headers = none;
}

unfoldable pub authentication_failed_error : String → Option (Dict Value) → String → ServiceError
authentication_failed_error rid details message = record {
  code = authentication_failed;
  message = message;
  status_code = 401;
  request_id = rid;
  details = details;
  headers = none;
}

unfoldable pub access_denied_error : String → Option (Dict Value) → String → ServiceError
access_denied_error rid details message = record {
  code = access_denied;
  message = message;
  status_code = 403;
  request_id = rid;
  details = details;
  headers = none;
}

unfoldable pub invalid_request_error : String → String → Option (Dict Value) → ServiceError
invalid_request_error rid message details = record {
  code = invalid_request;
  message = message;
  status_code = 400;
  request_id = rid;
  details = details;
  headers = none;
}

unfoldable pub rate_limit_exceeded_error :
    String → Option (Dict Value) → Option (Dict String) → String → ServiceError
rate_limit_exceeded_error rid details headers message = record {
  code = rate_limit_exceeded;
  message = message;
  status_code = 429;
  request_id = rid;
  details = details;
  headers = headers;
}

unfoldable pub upstream_failure_error : String → Option (Dict Value) → String → ℕ → ServiceError
upstream_failure_error rid details message status = record {
  code = upstream_failure;
  message = message;
  status_code = status;
  request_id = rid;
  details = details;
  headers = none;
}

unfoldable pub internal_server_error : String → Option (Dict Value) → String → ℕ → ServiceError
internal_server_error rid details message status = record {
  code = internal_error;
  message = message;
  status_code = status;
  request_id = rid;
  details = details;
  headers = none;
}
