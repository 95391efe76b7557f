-- ===== src/Converse/Response/StopReason.antt =====
-- The stop reasons that a client sees, and what becomes of the ones that it does not.
use claude_code_proxy.Prelude.{
  String, true, Option, none, some, [], ◌∷◌, Dict, ◌≡◌, refl, inl, inr, Bool-cases, In, In_of_any,
  str_eq, str_eq_iff,
}
use claude_code_proxy.Json.{Value, null, bool, int, real, text, list, dict}
use claude_code_proxy.Exec.{ok, ok_inj}
use claude_code_proxy.Converse.{supported_stop_reasons, is_supported}
use claude_code_proxy.Converse.Response.{map_stop_reason}

-- Either no reason was given, or one of the supported reasons was and is kept, or the reason is
-- `end_turn` and the metadata has the raw one.
pub data StopReason (raw : Value) : Option String → Dict Value → Type 0 where
  absent : raw ≡ null → StopReason raw none []
  kept : (s : String) → raw ≡ text s → In s supported_stop_reasons → StopReason raw (some s) []
  replaced : StopReason raw (some "end_turn") (("raw_stop_reason", raw) ∷ [])

supported : (s : String) → is_supported s ≡ true → In s supported_stop_reasons
unfolding is_supported
supported s h =
    let (a, m, e) = In_of_any (str_eq s) supported_stop_reasons h in rw ((str_eq_iff s a).0 e) m

same :
    {raw : Value} {x y : Option String × Dict Value}
    → StopReason raw x.0 x.1
    → ok x ≡ ok y
    → StopReason raw y.0 y.1
same k e = rw (← ok_inj e) k

-- Whatever stop reason Bedrock gives, one that `map_stop_reason` returns is a supported one, and
-- the metadata keeps the raw reason exactly where it was replaced.
pub map_stop_reason-StopReason :
    (raw : Value) (reason : Option String) (metadata : Dict Value)
    → map_stop_reason raw ≡ ok (reason, metadata)
    → StopReason raw reason metadata
unfolding map_stop_reason
map_stop_reason-StopReason null reason m h = same {y = (reason, m)} (absent refl) h
map_stop_reason-StopReason (text s) reason m h = elim (Bool-cases (is_supported s)) [
  | inl b ↦ same {y = (reason, m)} (kept s refl (supported s b)) (rw b at h)
  | inr b ↦ same {y = (reason, m)} replaced (rw b at h)
]
map_stop_reason-StopReason (list vs) reason m h = cc h
map_stop_reason-StopReason (dict vs) reason m h = cc h
map_stop_reason-StopReason (bool x) reason m h = same {y = (reason, m)} replaced h
map_stop_reason-StopReason (int x) reason m h = same {y = (reason, m)} replaced h
map_stop_reason-StopReason (real x) reason m h = same {y = (reason, m)} replaced h
