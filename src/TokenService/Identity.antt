-- ===== src/TokenService/Identity.antt =====
-- token_service/identity.py: the user name in the caller's ARN, from the event of API Gateway.
use Prim.Native.String.{◌++◌}
use claude_code_proxy.Prelude.{
  String, false, ◌||◌, Option, none, some, ◌≡◌, ◌↔◌, refl, sym, inl, inr, arith, Bool-cases, str_eq,
  if◌then◌else◌,
}
use claude_code_proxy.Json.{Value, null, bool, int, real, text, list, dict, Fields, get_field}
use claude_code_proxy.Exec.{Exn, Result, ok, raised, identity_resolution, ◌>>?◌, ok_inj, step_ok}
use claude_code_proxy.Text.{strip, after_last_slash}
use claude_code_proxy.Text.Slash.{IsLastPart, after_last_slash-IsLastPart, after_last_slash_unique}

-- `isinstance(x, dict)`, of what `.get` gives
abbrev dict_or_error : String → Option Value → Result Fields
dict_or_error message (some (dict m)) = ok m
dict_or_error message _ = raised (identity_resolution message)

unfoldable pub extract_identity_section : Fields → Result Fields
extract_identity_section event =
    dict_or_error "API Gateway requestContext is missing." (get_field "requestContext" event)
    >>? λ request_context.
        dict_or_error "API Gateway requestContext.identity is missing."
          (get_field "identity" request_context)

abbrev missing_arn : Exn
missing_arn = identity_resolution "API Gateway requestContext.identity.userArn is missing."

unfoldable pub arn_or_error : Option Value → Result String
arn_or_error (some (text s)) = if str_eq (strip s) "" then raised missing_arn else ok s
arn_or_error _ = raised missing_arn

unfoldable pub extract_user_arn : Fields → Result String
extract_user_arn event =
    extract_identity_section event >>? λ identity. arn_or_error (get_field "userArn" identity)

unfoldable pub parse_username_from_user_arn : String → Result String
parse_username_from_user_arn user_arn =
    let username = strip (after_last_slash user_arn) in
    if str_eq username "" || str_eq username user_arn
    then raised (identity_resolution ("Could not parse username from user ARN: " ++ user_arn))
    else ok username

unfoldable pub extract_username_from_event : Fields → Result String
extract_username_from_event event = extract_user_arn event >>? parse_username_from_user_arn

-- The path of the event at which the caller's ARN stands.
pub record HasArn (event : Fields) (user_arn : String) : Type 0 where
  pub request_context : Fields
  pub identity : Fields
  pub context_at : get_field "requestContext" event ≡ some (dict request_context)
  pub identity_at : get_field "identity" request_context ≡ some (dict identity)
  pub arn_at : get_field "userArn" identity ≡ some (text user_arn)
  pub not_blank : str_eq (strip user_arn) "" ≡ false

-- The name that an ARN carries: its last part, without the blanks around it.
pub record IsUsername (user_arn username : String) : Type 0 where
  pub part : String
  pub last_part : IsLastPart user_arn part
  pub trimmed : username ≡ strip part
  pub not_empty : str_eq username "" ≡ false
  pub has_path : str_eq username user_arn ≡ false

dict_or_error_ok :
    (message : String) (o : Option Value) (m : Fields)
    → dict_or_error message o ≡ ok m
    → o ≡ some (dict m)
dict_or_error_ok message none m h = cc h
dict_or_error_ok message (some null) m h = cc h
dict_or_error_ok message (some (bool x)) m h = cc h
dict_or_error_ok message (some (int x)) m h = cc h
dict_or_error_ok message (some (real x)) m h = cc h
dict_or_error_ok message (some (text x)) m h = cc h
dict_or_error_ok message (some (list x)) m h = cc h
dict_or_error_ok message (some (dict x)) m h = rw (ok_inj h) refl

arn_or_error_ok :
    (o : Option Value) (s : String)
    → arn_or_error o ≡ ok s
    → (o ≡ some (text s)) × (str_eq (strip s) "" ≡ false)
unfolding arn_or_error
arn_or_error_ok none s h = cc h
arn_or_error_ok (some null) s h = cc h
arn_or_error_ok (some (bool x)) s h = cc h
arn_or_error_ok (some (int x)) s h = cc h
arn_or_error_ok (some (real x)) s h = cc h
arn_or_error_ok (some (list x)) s h = cc h
arn_or_error_ok (some (dict x)) s h = cc h
arn_or_error_ok (some (text x)) s h = elim (Bool-cases (str_eq (strip x) "")) [
  | inl b ↦ cc (rw b at h)
  | inr b ↦ let e = ok_inj (rw b at h) in rw (← e) (refl, b)
]

parse-IsUsername :
    (arn username : String)
    → parse_username_from_user_arn arn ≡ ok username
    → IsUsername arn username
unfolding parse_username_from_user_arn
parse-IsUsername arn username e =
    elim (Bool-cases
      (str_eq (strip (after_last_slash arn)) "" || str_eq (strip (after_last_slash arn)) arn)) [
        | inl b ↦ cc (rw b at e)
        | inr b ↦
            let q = ok_inj (rw b at e) in
            record {
              part = after_last_slash arn;
              last_part = after_last_slash-IsLastPart arn;
              trimmed = sym q;
              not_empty = rw (← q) (ground (arith, b));
              has_path = rw (← q) (ground (arith, b));
            }
      ]

parse_username_of :
    (arn username : String)
    → IsUsername arn username
    → parse_username_from_user_arn arn ≡ ok username
unfolding parse_username_from_user_arn
parse_username_of arn username i =
    rw (after_last_slash_unique arn i.part i.last_part, ← i.trimmed, i.not_empty, i.has_path) refl

extract_user_arn_ok :
    (event : Fields) (arn : String) → extract_user_arn event ≡ ok arn → HasArn event arn
unfolding extract_user_arn extract_identity_section
extract_user_arn_ok event arn h =
    let (identity, h3, h4) = step_ok _ _ arn h in
    let (context, h5, h6) = step_ok _ _ identity h3 in
    let (at, solid) = arn_or_error_ok _ arn h4 in
    record {
      request_context = context;
      identity = identity;
      context_at = dict_or_error_ok _ _ context h5;
      identity_at = dict_or_error_ok _ _ identity h6;
      arn_at = at;
      not_blank = solid;
    }

extract_user_arn_of :
    (event : Fields) (arn : String) → HasArn event arn → extract_user_arn event ≡ ok arn
unfolding extract_user_arn extract_identity_section arn_or_error
extract_user_arn_of event arn a = rw (a.context_at, a.identity_at, a.arn_at, a.not_blank) refl

-- A user name is extracted from an event exactly if the event has an ARN that is not blank, and the name
-- is what stands behind the last slash of it (the whole ARN where it has no slash) without the blanks around it, is
-- not empty, and is not the ARN itself.
pub extract_username_from_event-IsUsername :
    (event : Fields) (username : String)
    → (extract_username_from_event event ≡ ok username)
      ↔ ((user_arn : String) × HasArn event user_arn × IsUsername user_arn username)
unfolding extract_username_from_event
extract_username_from_event-IsUsername event username = (
  λ h.
      let (arn, h1, h2) = step_ok _ parse_username_from_user_arn username h in
      (arn, extract_user_arn_ok event arn h1, parse-IsUsername arn username h2),
  λ x. rw (extract_user_arn_of event x.0 x.1) (parse_username_of x.0 username x.2),
)
