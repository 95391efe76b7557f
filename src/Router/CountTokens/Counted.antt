-- ===== src/Router/CountTokens/Counted.antt =====
-- Where a count of tokens comes from.
use claude_code_proxy.Prelude.{
  String, Bool, true, false, Option, none, some, [], ◌∷◌, ◌≡◌, ◌⊎◌, refl, sym, ap, ◌∙◌, inl, inr,
  if◌then◌else◌,
}
use claude_code_proxy.Prelude.Int.{ℤ, pos}
use claude_code_proxy.Json.{
  Value, null, bool, int, real, text, list, dict, Fields, get_field, truthy, object,
}
use claude_code_proxy.Json.Convert.{int_of_value, or_key_error}
use claude_code_proxy.Exec.{Exec, Result, ◌>>=◌, lift, ok, raised, bind_ok, lift_bind_ok, ok_inj}
use claude_code_proxy.Domain.{AuthenticatedRequestContext}
use claude_code_proxy.Resolver.{ResolvedModel}
use claude_code_proxy.Converse.Response.{fields_of}
use claude_code_proxy.Converse.Request.Build.{ConverseRequest, build_converse_request}
use claude_code_proxy.Observability.{resolve_request_id}
use claude_code_proxy.ErrorResponses.{JsonResponse}
use claude_code_proxy.Router.{
  ProxyDependencies, Reply, message, failure, attempt, attempted, model_of, authenticate_request,
  resolve_requested,
}
use claude_code_proxy.Router.CountTokens.{input_tokens_of, count_of_request, counted, count_tokens}

-- The value that stands for the tokens in an answer of Bedrock: the first of its two names that it has.
pub data Tokens (response : Fields) : Value → Type 0 where
  camel : {v : Value} → get_field "inputTokens" response ≡ some v → Tokens response v
  snake :
      {v : Value}
      → get_field "inputTokens" response ≡ none
      → get_field "input_tokens" response ≡ some v
      → Tokens response v
  missing :
      get_field "inputTokens" response ≡ none
      → get_field "input_tokens" response ≡ none
      → Tokens response (int (pos 0))

-- The number of tokens in an answer: `int` of this value, and 0 for a value that is falsy.
pub record IsTokenCount (response : Fields) (n : ℤ) : Type 0 where
  pub value : Value
  pub found : Tokens response value
  pub number :
      ((truthy value ≡ false) × (n ≡ pos 0)) ⊎ ((truthy value ≡ true) × (int_of_value value ≡ ok n))

number_of :
    (v : Value) (n : ℤ) (b : Bool)
    → truthy v ≡ b
    → (if b then int_of_value v else ok (pos 0)) ≡ ok n
    → ((truthy v ≡ false) × (n ≡ pos 0)) ⊎ ((truthy v ≡ true) × (int_of_value v ≡ ok n))
number_of v n true e h = inr (e, h)
number_of v n false e h = inl (e, sym (ok_inj h))

input_tokens_of-IsTokenCount :
    (response : Fields) (n : ℤ) → input_tokens_of response ≡ ok n → IsTokenCount response n
unfolding input_tokens_of
input_tokens_of-IsTokenCount response n h =
    chosen (get_field "inputTokens" response) (get_field "input_tokens" response) refl refl h
  where
    or_zero : Option Value → Option Value → Value
    or_zero a b = elim a [ none ↦ elim b [ none ↦ int (pos 0) | some x ↦ x ] | some x ↦ x ]

    chosen :
        (a b : Option Value)
        → get_field "inputTokens" response ≡ a
        → get_field "input_tokens" response ≡ b
        → (if truthy (or_zero a b) then int_of_value (or_zero a b) else ok (pos 0)) ≡ ok n
        → IsTokenCount response n
    chosen (some x) b e f h = record { value = x; found = camel e; number = number_of x n _ refl h }
    chosen none (some x) e f h = record {
      value = x;
      found = snake e f;
      number = number_of x n _ refl h;
    }
    chosen none none e f h = record {
      value = int (pos 0);
      found = missing e f;
      number = number_of _ n _ refl h;
    }

fields_of_ok : (body : Value) (m : Fields) → fields_of body ≡ ok m → body ≡ dict m
unfolding fields_of
fields_of_ok (dict x) m h = ap dict (ok_inj h)
fields_of_ok null m h = cc h
fields_of_ok (bool b) m h = cc h
fields_of_ok (int n) m h = cc h
fields_of_ok (real r) m h = cc h
fields_of_ok (text s) m h = cc h
fields_of_ok (list vs) m h = cc h

model_of_ok :
    (m : Fields) (model : Value) → model_of (dict m) ≡ ok model → get_field "model" m ≡ some model
unfolding model_of
model_of_ok m model h = present (get_field "model" m) h
  where
    present : (o : Option Value) → or_key_error o ≡ ok model → o ≡ some model
    present none h = cc h
    present (some x) h = ap some (ok_inj h)

attempted_ok :
    {W A : Type 0} (z : Result A × W) (r : Result A) (w : W) → attempted z ≡ (ok r, w) → z ≡ (r, w)
attempted_ok {W} {A} (x, v) r w h = λ i. (
  ok_inj (ap (λ (p : Result (Result A) × W). p.0) h) i,
  ap (λ (p : Result (Result A) × W). p.1) h i,
)

module _ {W T F : Type 0} (repr : Value → String) (d : ProxyDependencies W T F) where
  -- A count that a client is given: the steps of the call, each in the world that the step before it left.
  pub record IsCounted (header : Option String) (body : Value) (w : W) (v : Value) (w' : W)
      : Type 0 where
    pub request_id : String
    pub identified : W
    pub scope : resolve_request_id d.request_scope w ≡ (ok request_id, identified)
    pub context : AuthenticatedRequestContext
    pub authenticated : W
    pub authentication :
        authenticate_request repr d header request_id identified ≡ (ok context, authenticated)
    pub members : Fields
    pub is_dict : body ≡ dict members
    pub model : Value
    pub at_model : get_field "model" members ≡ some model
    pub resolved : String × ResolvedModel
    pub routed : W
    pub resolution : resolve_requested repr d model authenticated ≡ (ok resolved, routed)
    pub request : ConverseRequest
    pub built : build_converse_request repr members resolved.1 ≡ ok request
    pub response : Fields
    pub answered : d.bedrock_client.count_tokens request routed ≡ (ok response, w')
    pub tokens : ℤ
    pub count : IsTokenCount response tokens
    pub given : v ≡ object (("input_tokens", int tokens) ∷ [])

  message_of_counted :
      (rid : String) (r : Result Fields) (v : Value)
      → counted repr d rid r ≡ ok (message v)
      → (response : Fields) × (tokens : ℤ) × (r ≡ ok response)
        × (input_tokens_of response ≡ ok tokens)
        × (v ≡ object (("input_tokens", int tokens) ∷ []))
  unfolding counted
  message_of_counted rid (raised x) v h = absurd (no_message (ok_inj h))
    where
      no_message : {r : JsonResponse} → ◌≡◌ {A = Reply T F} (failure r) (message v) → ⊥
      no_message q = cc q
  message_of_counted rid (ok response) v h = shown (input_tokens_of response) refl h
    where
      message_inj : {a : Value} → ◌≡◌ {A = Reply T F} (message a) (message v) → a ≡ v
      message_inj q = cc q

      shown :
          (n : Result ℤ)
          → input_tokens_of response ≡ n
          → ◌≡◌ {A = Result (Reply T F)}
              (elim n [
                | raised e ↦ raised e
                | ok k ↦ ok (message (object (("input_tokens", int k) ∷ [])))
              ])
              (ok (message v))
          → (answer : Fields) × (tokens : ℤ) × (◌≡◌ {A = Result Fields} (ok response) (ok answer))
            × (input_tokens_of answer ≡ ok tokens)
            × (v ≡ object (("input_tokens", int tokens) ∷ []))
      shown (raised x) q h = cc h
      shown (ok n) q h = (response, n, refl, q, sym (message_inj (ok_inj h)))

  of_request :
      (header : Option String) (rid : String) (body : Value) (w w1 w' : W) (v : Value)
      (response : Fields) (tokens : ℤ)
      → resolve_request_id d.request_scope w ≡ (ok rid, w1)
      → count_of_request repr d header rid body w1 ≡ (ok response, w')
      → IsTokenCount response tokens
      → v ≡ object (("input_tokens", int tokens) ∷ [])
      → IsCounted header body w v w'
  unfolding count_of_request
  of_request header rid body w w1 w' v response tokens e1 returns n shown =
      let (context, w3, e3, h3) =
        bind_ok (authenticate_request repr d header rid) _ w1 w' response returns in
      let (model, e4, h4) = lift_bind_ok (model_of body) _ w3 w' response h3 in
      let (resolved, w4, e5, h5) = bind_ok (resolve_requested repr d model) _ w3 w' response h4 in
      let (m, e6, h6) = lift_bind_ok (fields_of body) _ w4 w' response h5 in
      let (request, e7, h7) =
        lift_bind_ok (build_converse_request repr m resolved.1) _ w4 w' response h6 in
      record {
        request_id = rid;
        identified = w1;
        scope = e1;
        context = context;
        authenticated = w3;
        authentication = e3;
        members = m;
        is_dict = fields_of_ok body m e6;
        model = model;
        at_model = model_of_dict m model (fields_of_ok body m e6) e4;
        resolved = resolved;
        routed = w4;
        resolution = e5;
        request = request;
        built = e7;
        response = response;
        answered = h7;
        tokens = tokens;
        count = n;
        given = shown;
      }
    where
      model_of_dict :
          (m : Fields) (model : Value)
          → body ≡ dict m
          → model_of body ≡ ok model
          → get_field "model" m ≡ some model
      model_of_dict m model e q = model_of_ok m model (ap model_of (sym e) ∙ q)

  of_answer :
      (header : Option String) (rid : String) (body : Value) (w w1 w2 w' : W) (v : Value)
      (r : Result Fields)
      → resolve_request_id d.request_scope w ≡ (ok rid, w1)
      → attempt (count_of_request repr d header rid body) w1 ≡ (ok r, w2)
      → counted repr d rid r ≡ ok (message v)
      → w2 ≡ w'
      → IsCounted header body w v w'
  of_answer header rid body w w1 w2 w' v r e1 e2 h same =
      let (response, tokens, q, n, shown) = message_of_counted rid r v h in
      of_request header rid body w w1 w' v response tokens e1
        (attempted_ok (count_of_request repr d header rid body w1) r w2 e2 ∙ λ i. (q i, same i))
        (input_tokens_of-IsTokenCount response tokens n) shown

  -- A client of count_tokens is given a count only for a request that was authenticated, whose model was
  -- resolved and whose payload was built, in this order; the count is `int` of the tokens in the answer of Bedrock
  -- for that payload, and 0 where the answer has none or a falsy value.
  pub count_tokens-IsCounted :
      (header : Option String) (body : Value) (w w' : W) (v : Value)
      → count_tokens repr d header body w ≡ (ok (message v), w')
      → IsCounted header body w v w'
  unfolding count_tokens
  count_tokens-IsCounted header body w w' v h =
      let (rid, w1, e1, h1) =
        bind_ok (resolve_request_id d.request_scope) (answer_to header body) w w' (message v) h in
      let (r, w2, e2, h2) =
        bind_ok (attempt (count_of_request repr d header rid body))
          (λ r. lift (counted repr d rid r)) w1 w' (message v) h1 in
      of_answer header rid body w w1 w2 w' v r e1 e2 (ap (λ (z : Result (Reply T F) × W). z.0) h2)
        (ap (λ (z : Result (Reply T F) × W). z.1) h2)
    where
      answer_to : Option String → Value → String → Exec W (Reply T F)
      answer_to header body rid =
          attempt (count_of_request repr d header rid body) >>= λ r. lift (counted repr d rid r)
