-- ===== src/Converse/Request/Messages.antt =====
-- The messages of a request: one for each that the client sent, each with a role that Bedrock knows.
use claude_code_proxy.Prelude.{
  String, Bool, true, ◌||◌, List, [], ◌∷◌, length, suc, str_eq, str_eq_iff, ◌≡◌, refl, sym, ap, inl,
  inr, arith, Bool-cases, if◌then◌else◌,
}
use claude_code_proxy.Json.{
  Value, null, bool, int, real, text, list, dict, Fields, array, object, get_field_or,
}
use claude_code_proxy.Exec.{Result-cases, ok, ok_inj}
use claude_code_proxy.Converse.Request.{
  normalize_messages, normalize_message, message_of, normalize_content_blocks, collect_from,
}

-- A message as Bedrock takes it.
pub data IsMessage : Value → Type 0 where
  of_user :
      (content : List Value)
      → IsMessage (object (("role", text "user") ∷ ("content", array content) ∷ []))
  of_assistant :
      (content : List Value)
      → IsMessage (object (("role", text "assistant") ∷ ("content", array content) ∷ []))

pub data AllMessages : List Value → Type 0 where
  no_message : AllMessages []
  message : {v : Value} {vs : List Value} → IsMessage v → AllMessages vs → AllMessages (v ∷ vs)

abbrev Single : List Value → Type 0
Single bs = (v : Value) × (bs ≡ (v ∷ [])) × IsMessage v

role_of_IsMessage :
    (role : String) (content : List Value)
    → (str_eq role "user" || str_eq role "assistant") ≡ true
    → IsMessage (object (("role", text role) ∷ ("content", array content) ∷ []))
role_of_IsMessage role content h = elim (Bool-cases (str_eq role "user")) [
  | inl u ↦ rw ((str_eq_iff role "user").0 u) (of_user content)
  | inr u ↦ rw ((str_eq_iff role "assistant").0 (ground (arith, h, u))) (of_assistant content)
]

module _ (repr : Value → String) (include_thinking : Bool) where
  message_of-Single :
      (role : String) (m : Fields) (bs : List Value)
      → message_of repr include_thinking role m ≡ ok bs
      → Single bs
  unfolding message_of
  message_of-Single role m bs h =
      elim (Bool-cases (str_eq role "user" || str_eq role "assistant")) [
        | inr b ↦ cc (rw b at h)
        | inl b ↦
            elim (Result-cases (
              normalize_content_blocks repr (get_field_or "content" null m) role
                (if include_thinking then get_field_or "thinking_blocks" null m else null))) [
                  | inr (x, q) ↦ cc (rw (b, q) at h)
                  | inl (c, q) ↦ (_, sym (ok_inj (rw (b, q) at h)), role_of_IsMessage role c b)
                ]
      ]

  normalize_message-Single :
      (v : Value) (bs : List Value) → normalize_message repr include_thinking v ≡ ok bs → Single bs
  unfolding normalize_message
  normalize_message-Single (dict m) bs h = message_of-Single _ m bs h
  normalize_message-Single null bs h = cc h
  normalize_message-Single (bool x) bs h = cc h
  normalize_message-Single (int x) bs h = cc h
  normalize_message-Single (real x) bs h = cc h
  normalize_message-Single (text x) bs h = cc h
  normalize_message-Single (list x) bs h = cc h

  collected-AllMessages :
      (vs out : List Value)
      → collect_from (normalize_message repr include_thinking) vs ≡ ok out
      → (length out ≡ length vs) × AllMessages out
  unfolding collect_from
  collected-AllMessages [] out h = rw (← ok_inj h) (refl, no_message)
  collected-AllMessages (v ∷ vs) out h =
      elim (Result-cases (normalize_message repr include_thinking v)) [
        | inr (x, q) ↦ cc (rw q at h)
        | inl (bs, q) ↦
            elim (Result-cases (collect_from (normalize_message repr include_thinking) vs)) [
              | inr (x, q') ↦ cc (rw (q, q') at h)
              | inl (rest, q') ↦
                  let (m, e, i) = normalize_message-Single v bs q in
                  let (l, a) = collected-AllMessages vs rest q' in
                  rw (← ok_inj (rw (q, q') at h)) (rw e (ap suc l, message i a))
            ]
      ]

  -- When the messages of a request are accepted, there is one message for Bedrock for each of them,
  -- and each has the role `user` or `assistant` and a list of content blocks.
  pub normalize_messages-AllMessages :
      (messages out : List Value)
      → normalize_messages repr include_thinking messages ≡ ok out
      → (length out ≡ length messages) × AllMessages out
  unfolding normalize_messages
  normalize_messages-AllMessages messages out h = collected-AllMessages messages out h
