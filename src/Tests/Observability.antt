-- ===== src/Tests/Observability.antt =====
-- api/observability.py: a request whose state is the id that it keeps.
use claude_code_proxy.Prelude.{String, false, ◌≡◌, refl, ap, sym, str_eq}
use claude_code_proxy.Json.{Value, null, text}
use claude_code_proxy.Exec.{Result, ok, ok_inj}
use claude_code_proxy.Text.{strip, is_space}
use claude_code_proxy.Observability.{
  RequestScope, KeepsRequestId, resolve_request_id, resolve_request_id_stable, kept_request_id,
}

abbrev scope : RequestScope Value
scope = record {
  state_request_id = λ w. (ok w, w);
  set_state_request_id = λ s w. (ok tt, text s);
  request_id_generator = λ w. (ok "r1", w);
}

not_blank : str_eq (strip "r1") "" ≡ false
unfolding strip is_space
not_blank = refl

scope-KeepsRequestId : KeepsRequestId scope
scope-KeepsRequestId = record {
  stored = λ w. w;
  read = λ w. refl;
  written = λ s w w' h. ap (λ z. z.1) (sym h);
  fresh = λ w w' s h. rw (← ok_inj (ap (λ (z : Result String × Value). z.0) h)) not_blank;
}

generated : resolve_request_id scope null ≡ (ok "r1", text "r1")
unfolding resolve_request_id kept_request_id
generated = refl

resolve_request_id_stable_example : resolve_request_id scope (text "r1") ≡ (ok "r1", text "r1")
resolve_request_id_stable_example =
    resolve_request_id_stable scope scope-KeepsRequestId null (text "r1") "r1" generated
