-- ===== src/Router/CountTokens.antt =====
-- api/proxy_router.py, count_tokens: the tokens that a request would use.
pub mod Counted
use claude_code_proxy.Prelude.{String, Option, [], ◌∷◌, if◌then◌else◌}
use claude_code_proxy.Prelude.Int.{ℤ, pos}
use claude_code_proxy.Json.{Value, int, Fields, get_field_or, truthy, object}
use claude_code_proxy.Json.Convert.{int_of_value}
use claude_code_proxy.Exec.{Exec, Result, ok, raised, ◌>>=◌, lift}
use claude_code_proxy.Converse.Response.{fields_of}
use claude_code_proxy.Converse.Request.Build.{build_converse_request}
use claude_code_proxy.Observability.{resolve_request_id}
use claude_code_proxy.Router.{
  ProxyDependencies, Reply, message, model_of, attempt, error_reply, authenticate_request,
  resolve_requested,
}

-- `int(d.get("inputTokens", d.get("input_tokens", 0)) or 0)`
unfoldable pub input_tokens_of : Fields → Result ℤ
input_tokens_of response =
    let v =
      get_field_or "inputTokens" (get_field_or "input_tokens" (int (pos 0)) response) response in
    if truthy v then int_of_value v else ok (pos 0)

module _ {W T F : Type 0} (repr : Value → String) (dependencies : ProxyDependencies W T F) where
  -- The body of the `try`.
  unfoldable pub count_of_request : Option String → String → Value → Exec W Fields
  count_of_request header rid body = do
    authenticated ← authenticate_request repr dependencies header rid
    model ← lift (model_of body)
    resolved ← resolve_requested repr dependencies model
    m ← lift (fields_of body)
    request ← lift (build_converse_request repr m resolved.1)
    dependencies.bedrock_client.count_tokens request

  unfoldable pub counted : String → Result Fields → Result (Reply T F)
  counted rid (raised error) = ok (error_reply rid error)
  counted rid (ok response) = elim (input_tokens_of response) [
    | raised e ↦ raised e
    | ok n ↦ ok (message (object (("input_tokens", int n) ∷ [])))
  ]

  unfoldable pub count_tokens : Option String → Value → Exec W (Reply T F)
  count_tokens header body = do
    rid ← resolve_request_id dependencies.request_scope
    response ← attempt (count_of_request header rid body)
    lift (counted rid response)
