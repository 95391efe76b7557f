-- ===== src/TokenService/Handler/Outcome.antt =====
-- What the handler answers: it never raises because of the caller or the services behind it, and a
-- key that it returns is the one that was issued for the user of the event.
use claude_code_proxy.Prelude.{
  ℕ, String, Option, none, some, ◌≡◌, refl, ◌⊎◌, inl, inr, Bool-cases, leb, str_eq, [], Dict,
}
use claude_code_proxy.Json.{
  Value, null, bool, int, real, text, list, dict, Fields, get_field, get_field_or, object,
}
use claude_code_proxy.Text.{strip}
use claude_code_proxy.Prelude.Int.{ℤ}
use claude_code_proxy.Exec.{Exec, Exn, Result, ok, raised, ◌>>=◌, pure}
use claude_code_proxy.Domain.{TokenIssueResult, TokenIssueSource, cache, reused, issued}
use claude_code_proxy.TokenService.Identity.{extract_username_from_event}
use claude_code_proxy.TokenService.Handler.{
  TokenServiceHandlerDependencies, TokenServiceMetricsRecorder, Response, json_response,
  key_payload, error_response, resolve_request_id, id_of_context, id_in_context, attempt, recovered,
  guarded, count_errors, count_source, record_with, record_metrics, log_failure, report,
  handle_get_or_create_key,
}

-- An action that returns, in every world.
abbrev pub Returns : {W A : Type 0} → Exec W A → Type 0
Returns {W = W} {A = A} m = (w : W) → (a : A) × (w' : W) × (m w ≡ (ok a, w'))

module _ {W A B : Type 0} where
  bind-Returns :
      (m : Exec W A) (f : A → Exec W B) → Returns m → ((a : A) → Returns (f a)) → Returns (m >>= f)
  bind-Returns m f h k w = let (a, w1, e) = h w in let (b, w2, e') = k a w1 in (b, w2, (rw e e'))

pure-Returns : {A : Type 0} (W : Type 0) (a : A) → Returns (pure {W = W} a)
pure-Returns W a w = (a, w, refl)

-- The recording of metrics and the log do not raise.
pub record IsReliable {W Time : Type 0} (d : TokenServiceHandlerDependencies W Time) : Type 0 where
  pub request_id_generator : Returns d.request_id_generator
  pub perf_counter : Returns d.perf_counter
  pub warning : (v : Value) → Returns (d.warning v)
  pub increment :
      (r : TokenServiceMetricsRecorder W) (name : String) (tags : Dict String)
      → d.metrics ≡ some r
      → Returns (r.increment name tags)
  pub observe :
      (r : TokenServiceMetricsRecorder W) (name : String) (value : ℤ) (tags : Dict String)
      → d.metrics ≡ some r
      → Returns (r.observe name value tags)

module _ {W Time : Type 0} (d : TokenServiceHandlerDependencies W Time)
    (reliable : IsReliable d) where
  id_in_context-Returns : (o : Option Value) → Returns (id_in_context d o)
  unfolding id_in_context
  id_in_context-Returns none = reliable.request_id_generator
  id_in_context-Returns (some null) = reliable.request_id_generator
  id_in_context-Returns (some (bool x)) = reliable.request_id_generator
  id_in_context-Returns (some (int x)) = reliable.request_id_generator
  id_in_context-Returns (some (real x)) = reliable.request_id_generator
  id_in_context-Returns (some (list x)) = reliable.request_id_generator
  id_in_context-Returns (some (dict x)) = reliable.request_id_generator
  id_in_context-Returns (some (text x)) = elim (Bool-cases (str_eq (strip x) "")) [
    | inl b ↦ rw b reliable.request_id_generator
    | inr b ↦ rw b (pure-Returns W x)
  ]

  log_failure-Returns : (rid : String) (r : Response) → Returns (log_failure d rid r)
  unfolding log_failure
  log_failure-Returns rid r = elim (Bool-cases (leb 400 r.status_code)) [
    | inl b ↦ rw b (reliable.warning _)
    | inr b ↦ rw b (pure-Returns W tt)
  ]

  count_source-Returns :
      (r : TokenServiceMetricsRecorder W) (s : Option TokenIssueSource)
      → d.metrics ≡ some r
      → Returns (count_source d r s)
  unfolding count_source
  count_source-Returns r none h = pure-Returns W tt
  count_source-Returns r (some cache) h = reliable.increment r _ _ h
  count_source-Returns r (some reused) h = reliable.increment r _ _ h
  count_source-Returns r (some issued) h = reliable.increment r _ _ h

  count_errors-Returns :
      (r : TokenServiceMetricsRecorder W) (status : ℕ) (tags : Dict String)
      → d.metrics ≡ some r
      → Returns (count_errors d r status tags)
  unfolding count_errors
  count_errors-Returns r status tags h = elim (Bool-cases (leb 400 status)) [
    | inl b ↦ rw b (reliable.increment r _ _ h)
    | inr b ↦ rw b (pure-Returns W tt)
  ]

  record_with-Returns :
      (o : Option (TokenServiceMetricsRecorder W)) (status : ℕ) (ms : ℤ)
      (s : Option TokenIssueSource)
      → d.metrics ≡ o
      → Returns (record_with d o status ms s)
  unfolding record_with
  record_with-Returns none status ms s h = pure-Returns W tt
  record_with-Returns (some r) status ms s h = bind-Returns _ _ (reliable.increment r _ _ h) λ _.
      bind-Returns _ _ (reliable.observe r _ _ _ h)
        λ _. bind-Returns _ _ (count_errors-Returns r status _ h) λ _. count_source-Returns r s h

  report-Returns :
      (rid : String) (t : Time) (r : Response × Option TokenIssueSource)
      → Returns (report d rid t r)
  unfolding report record_metrics
  report-Returns rid t r = bind-Returns _ _ reliable.perf_counter λ t'.
      bind-Returns _ _ (record_with-Returns d.metrics r.0.status_code _ r.1 refl)
        λ _. bind-Returns _ _ (log_failure-Returns rid r.0) λ _. pure-Returns W r.0

  guarded-Returns : (rid : String) (event : Fields) → Returns (guarded d rid event)
  unfolding guarded recovered
  guarded-Returns rid event w = settled (attempt d rid event w)
    where
      settled :
          (x : Result (Response × Option TokenIssueSource) × W)
          → (a : Response × Option TokenIssueSource) × (w' : W) × (recovered d rid x ≡ (ok a, w'))
      settled (ok r, w') = (r, w', refl)
      settled (raised e, w') = ((error_response rid e, none), w', refl)

  -- When the generator of request ids, the clock, the metrics and the log do not raise, and the
  -- event has a request context that is an object, the handler returns a response, whatever the
  -- user repository and the issue service do.
  pub handle_get_or_create_key-Returns :
      (event context : Fields)
      → get_field_or "requestContext" (object []) event ≡ dict context
      → Returns (handle_get_or_create_key d event)
  unfolding handle_get_or_create_key resolve_request_id id_of_context
  handle_get_or_create_key-Returns event context h =
      bind-Returns _ _ (rw h (id_in_context-Returns (get_field "requestId" context))) λ rid.
        bind-Returns _ _ reliable.perf_counter
          λ t. bind-Returns _ _ (guarded-Returns rid event) λ r. report-Returns rid t r

module _ {W Time : Type 0} (d : TokenServiceHandlerDependencies W Time) where
  -- The key of a response: issued for the user whose name the event gives.
  pub record IsKeyResponse (event : Fields) (rid : String) (r : Response) (w w' : W) : Type 0 where
    pub username : String
    pub user_id : String
    pub found : W
    pub result : TokenIssueResult
    pub named : extract_username_from_event event ≡ ok username
    pub registered : d.get_user_id_for_username username w ≡ (ok (some user_id), found)
    pub issued : d.get_or_create_key user_id rid found ≡ (ok result, w')
    pub answered : r ≡ json_response 200 (key_payload rid result)

  -- What the body of the `try` came to, and the answer to it.
  pub record IsErrorResponse (event : Fields) (rid : String) (r : Response) (w w' : W)
      : Type 0 where
    pub error : Exn
    pub failed : attempt d rid event w ≡ (raised error, w')
    pub answered : r ≡ error_response rid error

  abbrev pub Outcome : Fields → Response → Type 0
  Outcome event r =
      (rid : String) × (w : W) × (w' : W) × (IsKeyResponse event rid r w w'
        ⊎ IsErrorResponse event rid r w w')
