-- ===== src/ErrorResponses/Status.antt =====
-- The status and the request id of the response for an exception.
use claude_code_proxy.Prelude.{
  ◌≤◌, String, Option, none, some, [], ◌∷◌, ◌≡◌, refl, sym, ap, ◌∙◌, inl, inr, arith, In,
}
use claude_code_proxy.Json.{Value, dict, text, get_field, object}
use claude_code_proxy.Errors.{
  invalid_request_error, upstream_failure_error, authentication_failed_error,
}
use claude_code_proxy.Exec.{
  Exn, Result, ok, raised, service, request_build, model_resolution, identity_resolution, http,
  other,
}
use claude_code_proxy.Domain.{VirtualKeyRecord, UserRecord}
use claude_code_proxy.Auth.{AuthRepositories, authenticate, authentication_error}
use claude_code_proxy.Auth.Context.{authenticate_fails_closed, reasons}
use claude_code_proxy.ErrorResponses.{
  JsonResponse, error_response_for_exception, service_error_response, anthropic_error_response,
  normalize_exception, error_type_of,
}

-- content[k], of an object
abbrev pub content_at : String → Value → Option Value
content_at k (dict m) = get_field k m
content_at k v = none

-- An error of the service that is raised for this request.
abbrev pub IsOwn : String → Exn → Type 0
IsOwn rid (service e) = (400 ≤ e.status_code) × (e.request_id ≡ rid)
IsOwn rid _ = Unit {0}

pub record IsErrorFor (rid : String) (r : JsonResponse) : Type 0 where
  pub status : 400 ≤ r.status_code
  pub type_ : content_at "type" r.content ≡ some (text "error")
  pub request_id : content_at "request_id" r.content ≡ some (text rid)

-- Every exception becomes an error response with a status of 400 or more that names the request,
-- provided that a ServiceError was raised for this request with such a status.
pub error_response_for_exception-IsErrorFor :
    (e : Exn) (rid : String) → IsOwn rid e → IsErrorFor rid (error_response_for_exception e rid)
unfolding error_response_for_exception service_error_response anthropic_error_response
    normalize_exception invalid_request_error upstream_failure_error
error_response_for_exception-IsErrorFor (service e) rid (h, i) = record {
  status = h;
  type_ = refl;
  request_id = ap (λ s. some (text s)) i;
}
error_response_for_exception-IsErrorFor (request_build q m) rid h = record {
  status = omega arith;
  type_ = refl;
  request_id = refl;
}
error_response_for_exception-IsErrorFor (model_resolution q r m) rid h = record {
  status = omega arith;
  type_ = refl;
  request_id = refl;
}
error_response_for_exception-IsErrorFor (identity_resolution m) rid h = record {
  status = omega arith;
  type_ = refl;
  request_id = refl;
}
error_response_for_exception-IsErrorFor (http s m) rid h = record {
  status = omega arith;
  type_ = refl;
  request_id = refl;
}
error_response_for_exception-IsErrorFor (other c) rid h = record {
  status = omega arith;
  type_ = refl;
  request_id = refl;
}

-- A response that asks the client to authenticate, with one of the reasons of the service.
pub record IsUnauthenticated (rid : String) (r : JsonResponse) : Type 0 where
  pub reason : String
  pub listed : In reason reasons
  pub status : r.status_code ≡ 401
  pub error :
      content_at "error" r.content
      ≡ some (
          object (
            ("type", text "authentication_error")
            ∷ ("message", text "Authentication failed.")
            ∷ ("details", object (("reason", text reason) ∷ []))
            ∷ []))

unauthenticated :
    (rid reason : String)
    → In reason reasons
    → IsUnauthenticated rid (error_response_for_exception (authentication_error rid reason) rid)
unfolding error_response_for_exception service_error_response anthropic_error_response
    normalize_exception authentication_failed_error error_type_of
unauthenticated rid reason m = record { reason = reason; listed = m; status = refl; error = refl }

same_exception : {A : Type 0} {r : Result A} {e e' : Exn} → r ≡ raised e → r ≡ raised e' → e ≡ e'
same_exception h h' = cc

-- With repositories that do not raise, an exception of `authenticate` is answered by a 401 with the
-- type `authentication_error` and one of the reasons of the authentication service.
pub authenticate-IsUnauthenticated :
    {W : Type 0} (hash_virtual_key : String → String) (repositories : AuthRepositories W)
    (header : Option String) (rid : String) (w : W) (e : Exn)
    → ((hash : String) (v : W)
        → (o : Option VirtualKeyRecord) × (v' : W) × (repositories.get_key_by_hash hash v
            ≡ (ok o, v')))
    → ((id_ : String) (v : W)
        → (o : Option UserRecord) × (v' : W) × (repositories.get_user id_ v ≡ (ok o, v')))
    → (authenticate hash_virtual_key repositories header rid w).0 ≡ raised e
    → IsUnauthenticated rid (error_response_for_exception e rid)
authenticate-IsUnauthenticated hash_virtual_key repositories header rid w e keys users h =
    elim (authenticate_fails_closed hash_virtual_key repositories header rid w keys users) [
      | inl (c, q) ↦ cc (sym q ∙ h)
      | inr (reason, m, q) ↦ rw (same_exception h q) (unauthenticated rid reason m)
    ]
