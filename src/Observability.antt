-- ===== src/Observability.antt =====
-- api/observability.py: the id of a request, and the metrics of the runtime middleware.
use claude_code_proxy.Prelude.{
  lookup, insert, ℕ, String, false, Option, none, some, [], ◌∷◌, Dict, str_eq, leb, if◌then◌else◌,
  ◌≡◌, refl, inl, inr, Bool-cases,
}
use claude_code_proxy.Json.{Value, null, bool, int, real, text, list, dict, object}
use claude_code_proxy.Exec.{Exec, ok, ◌>>=◌, ◌>>◌, pure, bind_ok, returned}
use claude_code_proxy.Prelude.Int.{pos}
use claude_code_proxy.Text.{strip}
use claude_code_proxy.ErrorResponses.{JsonResponse}
use claude_code_proxy.Text.Print.{text_of_nat}

-- What a request keeps of its id, and the generator of ids of the application.
pub record RequestScope (W : Type 0) : Type 0 where
  -- getattr(request.state, "request_id", None)
  pub state_request_id : Exec W Value
  pub set_state_request_id : String → Exec W (Unit {0})
  pub request_id_generator : Exec W String

module _ {W : Type 0} (scope : RequestScope W) where
  abbrev new_request_id : Exec W String
  new_request_id = do
    request_id ← scope.request_id_generator
    scope.set_state_request_id request_id
    pure request_id

  unfoldable pub kept_request_id : Value → Exec W String
  kept_request_id (text s) = if str_eq (strip s) "" then new_request_id else pure s
  kept_request_id v = new_request_id

  unfoldable pub resolve_request_id : Exec W String
  resolve_request_id = do request_id ← scope.state_request_id; kept_request_id request_id

abbrev pub metric_tags : String → String → ℕ → Dict String
metric_tags method path status =
    ("method", method) ∷ ("path", path) ∷ ("status_code", text_of_nat status) ∷ []

abbrev log_line : String → String → String → ℕ → Value
log_line request_id method path status = object (
    ("event", text "runtime_request_failed")
    ∷ ("method", text method)
    ∷ ("path", text path)
    ∷ ("request_id", text request_id)
    ∷ ("status_code", int (pos status))
    ∷ [])

-- RuntimeMetricsRecorder
pub record RuntimeMetrics (W : Type 0) : Type 0 where
  pub increment : String → Dict String → Exec W (Unit {0})
  pub observe : String → ℕ → Dict String → Exec W (Unit {0})

module _ {W : Type 0} where
  unfoldable pub record_metrics :
      Option (RuntimeMetrics W) → ℕ → ℕ → Dict String → Exec W (Unit {0})
  record_metrics none latency_ms status tags = pure tt
  record_metrics (some recorder) latency_ms status tags = do
    recorder.increment "runtime.requests" tags
    recorder.observe "runtime.request_latency_ms" latency_ms tags
    if leb 400 status then recorder.increment "runtime.errors" tags else pure tt

  unfoldable pub log_failure :
      (Value → Exec W (Unit {0})) → String → String → String → ℕ → Exec W (Unit {0})
  log_failure warn request_id method path status =
      if leb 400 status then warn (log_line request_id method path status) else pure tt

-- response.headers.setdefault(name, value)
unfoldable pub set_default : String → String → Dict String → Dict String
set_default name value headers = elim (lookup name headers) [
  | some old ↦ headers
  | none ↦ insert name value headers
]

-- The clock that measures a request, and the milliseconds between two of its readings.
pub record Timer (W T : Type 0) : Type 0 where
  pub perf_counter : Exec W T
  pub milliseconds_between : T → T → ℕ

module _ {W T : Type 0} (scope : RequestScope W) (timer : Timer W T)
    (recorder : Option (RuntimeMetrics W)) (warn : Value → Exec W (Unit {0})) where
  unfoldable pub runtime_observability : String → String → Exec W JsonResponse → Exec W JsonResponse
  runtime_observability method path call_next = do
    request_id ← resolve_request_id scope
    started_at ← timer.perf_counter
    response ← call_next
    ended_at ← timer.perf_counter
    record_metrics recorder (timer.milliseconds_between started_at ended_at) response.status_code
        (metric_tags method path response.status_code)
    log_failure warn request_id method path response.status_code
    pure (record response { headers = set_default "X-Request-Id" request_id response.headers })

-- The state of a request keeps the id that is put there, and the generator gives no blank id.
pub record KeepsRequestId {W : Type 0} (scope : RequestScope W) : Type 0 where
  pub stored : W → Value
  pub read : (w : W) → scope.state_request_id w ≡ (ok (stored w), w)
  pub written :
      (s : String) (w w' : W) → scope.set_state_request_id s w ≡ (ok tt, w') → stored w' ≡ text s
  pub fresh :
      (w w' : W) (s : String)
      → scope.request_id_generator w ≡ (ok s, w')
      → str_eq (strip s) "" ≡ false

module _ {W : Type 0} (scope : RequestScope W) (keeps : KeepsRequestId scope) where
  Settled : String → W → Type 0
  Settled rid w = (keeps.stored w ≡ text rid) × (str_eq (strip rid) "" ≡ false)

  Settled-resolve :
      (rid : String) (w : W) → Settled rid w → resolve_request_id scope w ≡ (ok rid, w)
  unfolding resolve_request_id kept_request_id Settled
  Settled-resolve rid w (q, b) = rw (keeps.read w, q) (rw b refl)

  Settled-at :
      (s rid : String) (v w : W)
      → (keeps.stored v ≡ text s)
      → (str_eq (strip s) "" ≡ false)
      → (s ≡ rid) × (v ≡ w)
      → Settled rid w
  unfolding Settled
  Settled-at s rid v w q b (e, f) = rw (← e, ← f) (q, b)

  new-Settled : (w w' : W) (rid : String) → new_request_id scope w ≡ (ok rid, w') → Settled rid w'
  unfolding Settled
  new-Settled w w' rid h =
      let (s, w1, g, h1) = bind_ok scope.request_id_generator _ w w' rid h in
      let (u, w2, p, h2) = bind_ok (scope.set_state_request_id s) _ w1 w' rid h1 in
      Settled-at s rid w2 w' (keeps.written s w1 w2 p) (keeps.fresh w w1 s g)
        (returned s rid w2 w' h2)

  kept-Settled :
      (v : Value) (w w' : W) (rid : String)
      → keeps.stored w ≡ v
      → kept_request_id scope v w ≡ (ok rid, w')
      → Settled rid w'
  unfolding kept_request_id
  kept-Settled (text s) w w' rid q h = elim (Bool-cases (str_eq (strip s) "")) [
    | inl b ↦ new-Settled w w' rid (rw b at h)
    | inr b ↦ Settled-at s rid w w' q b (returned s rid w w' (rw b at h))
  ]
  kept-Settled null w w' rid q h = new-Settled w w' rid h
  kept-Settled (bool b) w w' rid q h = new-Settled w w' rid h
  kept-Settled (int n) w w' rid q h = new-Settled w w' rid h
  kept-Settled (real r) w w' rid q h = new-Settled w w' rid h
  kept-Settled (list vs) w w' rid q h = new-Settled w w' rid h
  kept-Settled (dict m) w w' rid q h = new-Settled w w' rid h

  -- With a state that keeps the id of a request and a generator that gives no blank id, the id that a
  -- request gets first is the one that every later part of the application reads, and reading it again
  -- changes nothing.
  pub resolve_request_id_stable :
      (w w' : W) (rid : String)
      → resolve_request_id scope w ≡ (ok rid, w')
      → resolve_request_id scope w' ≡ (ok rid, w')
  unfolding resolve_request_id
  resolve_request_id_stable w w' rid h =
      Settled-resolve rid w' (kept-Settled (keeps.stored w) w w' rid refl (rw (keeps.read w) at h))
