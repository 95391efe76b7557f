-- ===== src/TokenService/Handler.antt =====
-- token_service/handler.py: one request of the token service, from the event of API Gateway to its
-- response. The body is the JSON value that `json.dumps` prints.
pub mod Outcome
use claude_code_proxy.Prelude.{
  ℕ, String, Bool, true, false, Option, none, some, [], ◌∷◌, Dict, str_eq, leb, if◌then◌else◌,
}
use claude_code_proxy.Prelude.Int.{ℤ, pos}
use claude_code_proxy.Json.{Value, null, int, text, dict, object, Fields, get_field, get_field_or}
use claude_code_proxy.Errors.{
  ServiceError, build_error_envelope, user_not_registered_error, internal_server_error,
  invalid_identity,
}
use claude_code_proxy.Exec.{
  Exec, Exn, Result, ok, raised, service, identity_resolution, other, ◌>>=◌, ◌>>◌, pure, raise,
  lift,
}
use claude_code_proxy.Domain.{TokenIssueResult, TokenIssueSource, cache, reused, issued}
use claude_code_proxy.Text.{strip}
use claude_code_proxy.Text.Print.{text_of_nat}
use claude_code_proxy.TokenService.Identity.{extract_username_from_event}

pub record TokenServiceMetricsRecorder (W : Type 0) : Type 0 where
  -- increment by 1
  pub increment : String → Dict String → Exec W (Unit {0})
  pub observe : String → ℤ → Dict String → Exec W (Unit {0})

pub record TokenServiceHandlerDependencies (W Time : Type 0) : Type 0 where
  pub get_user_id_for_username : String → Exec W (Option String)
  pub get_or_create_key : String → String → Exec W TokenIssueResult
  pub request_id_generator : Exec W String
  pub metrics : Option (TokenServiceMetricsRecorder W)
  -- perf_counter, the milliseconds between two of its readings, and logger.warning
  pub perf_counter : Exec W Time
  pub elapsed_ms : Time → Time → ℤ
  pub warning : Value → Exec W (Unit {0})

pub record Response : Type 0 where
  pub status_code : ℕ
  pub headers : Dict String
  pub body : Value

unfoldable pub json_response : ℕ → Value → Response
json_response status payload = record {
  status_code = status;
  headers = ("Content-Type", "application/json") ∷ [];
  body = payload;
}

unfoldable pub key_payload : String → TokenIssueResult → Value
key_payload rid r = object (
    ("virtual_key", text r.virtual_key)
    ∷ ("user_id", text r.user_id)
    ∷ ("key_id", text r.key_id)
    ∷ ("key_prefix", text r.key_prefix)
    ∷ ("request_id", text rid)
    ∷ [])

-- The three `except` clauses.
unfoldable pub error_response : String → Exn → Response
error_response rid (identity_resolution message) = json_response 400 (
    build_error_envelope (record {
      code = invalid_identity;
      message = message;
      status_code = 400;
      request_id = rid;
      details = none;
      headers = none;
    }))
error_response rid (service e) = json_response e.status_code (build_error_envelope e)
error_response rid _ =
    json_response 500
      (build_error_envelope (internal_server_error rid none "Internal server error" 500))

-- json.loads(body).get("error", {}).get("type")
abbrev type_of_error : Value → Value
type_of_error (dict m) = get_field_or "type" null m
type_of_error v = null

abbrev pub error_type : Value → Value
error_type (dict m) = type_of_error (get_field_or "error" (object []) m)
error_type v = null

module _ {W Time : Type 0} (dependencies : TokenServiceHandlerDependencies W Time) where
  -- `.get` on what is not a dict is an AttributeError
  unfoldable pub id_in_context : Option Value → Exec W String
  id_in_context none = dependencies.request_id_generator
  id_in_context (some (text s)) =
      if str_eq (strip s) "" then dependencies.request_id_generator else pure s
  id_in_context (some v) = dependencies.request_id_generator

  unfoldable pub id_of_context : Value → Exec W String
  id_of_context (dict m) = id_in_context (get_field "requestId" m)
  id_of_context v = raise (other "AttributeError")

  unfoldable pub resolve_request_id : Fields → Exec W String
  resolve_request_id event = id_of_context (get_field_or "requestContext" (object []) event)

  unfoldable pub issue_for :
      String → String → Option String → Exec W (Response × Option TokenIssueSource)
  issue_for rid username none =
      raise (service (user_not_registered_error rid (some (("username", text username) ∷ []))))
  issue_for rid username (some user_id) = do
    result ← dependencies.get_or_create_key user_id rid
    pure (json_response 200 (key_payload rid result), some result.source)

  -- The body of the `try`, with the source of the key that it set.
  unfoldable pub attempt : String → Fields → Exec W (Response × Option TokenIssueSource)
  attempt rid event = do
    username ← lift (extract_username_from_event event)
    user_id ← dependencies.get_user_id_for_username username
    issue_for rid username user_id

  unfoldable pub recovered :
      String
      → Result (Response × Option TokenIssueSource) × W
      → Result (Response × Option TokenIssueSource) × W
  recovered rid (ok r, w) = (ok r, w)
  recovered rid (raised e, w) = (ok (error_response rid e, none), w)

  unfoldable pub guarded : String → Fields → Exec W (Response × Option TokenIssueSource)
  guarded rid event w = recovered rid (attempt rid event w)

  unfoldable pub count_errors : TokenServiceMetricsRecorder W → ℕ → Dict String → Exec W (Unit {0})
  count_errors recorder status tags =
      if leb 400 status then recorder.increment "token_service.errors" tags else pure tt

  unfoldable pub count_source :
      TokenServiceMetricsRecorder W → Option TokenIssueSource → Exec W (Unit {0})
  count_source recorder none = pure tt
  count_source recorder (some cache) =
      recorder.increment "token_service.cache_hits" (("operation", "get_or_create_key") ∷ [])
  count_source recorder (some _) =
      recorder.increment "token_service.cache_misses" (("operation", "get_or_create_key") ∷ [])

  unfoldable pub record_with :
      Option (TokenServiceMetricsRecorder W) → ℕ → ℤ → Option TokenIssueSource → Exec W (Unit {0})
  record_with none status latency source = pure tt
  record_with (some recorder) status latency source = do
    let tags = ("operation", "get_or_create_key") ∷ ("status_code", text_of_nat status) ∷ []
    recorder.increment "token_service.requests" tags
    recorder.observe "token_service.request_latency_ms" latency tags
    count_errors recorder status tags
    count_source recorder source

  unfoldable pub record_metrics : ℕ → ℤ → Option TokenIssueSource → Exec W (Unit {0})
  record_metrics status latency source = record_with dependencies.metrics status latency source

  unfoldable pub log_failure : String → Response → Exec W (Unit {0})
  log_failure rid response =
      if leb 400 response.status_code
      then dependencies.warning (
          object (
            ("event", text "token_service_request_failed")
            ∷ ("request_id", text rid)
            ∷ ("status_code", int (pos response.status_code))
            ∷ ("error_type", error_type response.body)
            ∷ []))
      else pure tt

  unfoldable pub report : String → Time → Response × Option TokenIssueSource → Exec W Response
  report rid started_at r = do
    finished_at ← dependencies.perf_counter
    record_metrics r.0.status_code (dependencies.elapsed_ms started_at finished_at) r.1
    log_failure rid r.0
    pure r.0

  unfoldable pub handle_get_or_create_key : Fields → Exec W Response
  handle_get_or_create_key event = do
    rid ← resolve_request_id event
    started_at ← dependencies.perf_counter
    r ← guarded rid event
    report rid started_at r
