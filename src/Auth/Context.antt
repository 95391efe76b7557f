-- ===== src/Auth/Context.antt =====
-- What a successful authentication rests on, and that every other outcome is a 401.
use claude_code_proxy.Prelude.{
  String, true, Option, none, some, List, [], ◌∷◌, ◌≡◌, ◌⊎◌, refl, sym, ap, ◌∙◌, inl, inr, arith,
  In, here, there, Bool-cases,
}
use claude_code_proxy.Exec.{
  Exn, Result, Result-cases, ok, raised, bind_ok, lift_bind_ok, returned, not_returned,
}
use claude_code_proxy.Domain.{
  VirtualKeyRecord, UserRecord, AuthenticatedRequestContext, is_active_status, active,
  VirtualKeyStatus, disabled, revoked,
}
use claude_code_proxy.Auth.{
  AuthRepositories, authenticate, extract_virtual_key, restore_trusted_request_context, with_record,
  with_user, authentication_error, is_blank,
}

-- The reasons of `_authentication_error`.
abbrev pub reasons : List String
reasons =
    "missing_bearer_token" ∷ "malformed_bearer_token" ∷ "unknown_virtual_key"
    ∷ "inactive_virtual_key" ∷ "orphaned_virtual_key" ∷ []

active_of_test : (s : VirtualKeyStatus) → is_active_status s ≡ true → s ≡ active
active_of_test active h = refl
active_of_test disabled h = cc
active_of_test revoked h = cc

module _ {W : Type 0} (hash_virtual_key : String → String) (repositories : AuthRepositories W) where
  -- A context is that of an active key of the ledger and of its user.
  pub record Trusted (header : Option String) (rid : String) (w w' : W)
      (c : AuthenticatedRequestContext) : Type 0 where
    pub key : String
    pub record_ : VirtualKeyRecord
    pub user : UserRecord
    pub between : W
    pub carried : extract_virtual_key header rid ≡ ok key
    pub known : repositories.get_key_by_hash (hash_virtual_key key) w ≡ (ok (some record_), between)
    pub is_active : record_.status ≡ active
    pub owned : repositories.get_user record_.user_id between ≡ (ok (some user), w')
    pub restored :
        c ≡ restore_trusted_request_context rid user record_.id record_.key_hash record_.key_prefix

  with_record_ok :
      (rid : String) (o : Option VirtualKeyRecord) (w w' : W) (c : AuthenticatedRequestContext)
      → with_record hash_virtual_key repositories rid o w ≡ (ok c, w')
      → (r : VirtualKeyRecord) × (user : UserRecord) × (o ≡ some r)
        × (r.status ≡ active)
        × (repositories.get_user r.user_id w ≡ (ok (some user), w'))
        × (c ≡ restore_trusted_request_context rid user r.id r.key_hash r.key_prefix)
  unfolding with_record
  with_record_ok rid none w w' c h = absurd (not_returned _ c w w' h)
  with_record_ok rid (some r) w w' c h = elim (Bool-cases (is_active_status r.status)) [
    | inr b ↦ absurd (not_returned _ c w w' (rw b at h))
    | inl b ↦
        let (o, w1, u, h1) = bind_ok (repositories.get_user r.user_id) _ w w' c (rw b at h) in
        with_owner b o w1 u h1
  ]
    where
      with_owner :
          is_active_status r.status ≡ true
          → (o : Option UserRecord) (w1 : W) → repositories.get_user r.user_id w ≡ (ok o, w1)
          → with_user hash_virtual_key repositories rid r o w1 ≡ (ok c, w')
          → (k : VirtualKeyRecord) × (user : UserRecord) × (some r ≡ some k)
            × (k.status ≡ active)
            × (repositories.get_user k.user_id w ≡ (ok (some user), w'))
            × (c ≡ restore_trusted_request_context rid user k.id k.key_hash k.key_prefix)
      with_owner b none w1 u h1 = absurd (not_returned _ c w1 w' h1)
      with_owner b (some user) w1 u h1 =
          let (e, v) = returned _ c w1 w' h1 in
          (r, user, refl, active_of_test r.status b, u ∙ (rw v), sym e)

  -- When `authenticate` returns a context, the header carries a key, the ledger has an active key
  -- with its hash, the key's user exists, and the context holds the data of that key and user.
  pub authenticate-Trusted :
      (header : Option String) (rid : String) (w w' : W) (c : AuthenticatedRequestContext)
      → authenticate hash_virtual_key repositories header rid w ≡ (ok c, w')
      → Trusted header rid w w' c
  unfolding authenticate
  authenticate-Trusted header rid w w' c h =
      let (key, e, h1) = lift_bind_ok (extract_virtual_key header rid) _ w w' c h in
      let (o, w1, g, h2) =
        bind_ok (repositories.get_key_by_hash (hash_virtual_key key)) _ w w' c h1 in
      let (r, user, q, a, u, t) = with_record_ok rid o w1 w' c h2 in
      record {
        key = key;
        record_ = r;
        user = user;
        between = w1;
        carried = e;
        known = g ∙ (rw q);
        is_active = a;
        owned = u;
        restored = t;
      }

  -- What `authenticate` raises when the repositories do not raise.
  abbrev pub Refused : String → Result AuthenticatedRequestContext → Type 0
  Refused rid r =
      (reason : String) × In reason reasons × (r ≡ raised (authentication_error rid reason))

  abbrev pub Settled : String → Result AuthenticatedRequestContext → Type 0
  Settled rid r = ((c : AuthenticatedRequestContext) × (r ≡ ok c)) ⊎ Refused rid r

  extract_settled :
      (header : Option String) (rid : String) (e : Exn)
      → extract_virtual_key header rid ≡ raised e
      → (reason : String) × In reason reasons × (e ≡ authentication_error rid reason)
  unfolding extract_virtual_key
  extract_settled none rid e h = ("missing_bearer_token", here refl, ground arith)
  extract_settled (some header) rid e h = elim (Bool-cases (is_blank header)) [
    | inl b ↦ ("missing_bearer_token", here refl, ground (arith, h, b))
    | inr b ↦ ("malformed_bearer_token", there (here refl), ground (arith, h, b))
  ]

  with_user-Settled :
      (rid : String) (r : VirtualKeyRecord) (o : Option UserRecord) (w : W)
      → Settled rid (with_user hash_virtual_key repositories rid r o w).0
  unfolding with_user
  with_user-Settled rid r none w =
      inr ("orphaned_virtual_key", there (there (there (there (here refl)))), refl)
  with_user-Settled rid r (some user) w = inl (_, refl)

  -- With repositories that do not raise, `authenticate` either returns a context or raises the
  -- authentication error with one of its five reasons: it fails closed.
  pub authenticate_fails_closed :
      (header : Option String) (rid : String) (w : W)
      → ((hash : String) (v : W)
          → (o : Option VirtualKeyRecord) × (v' : W) × (repositories.get_key_by_hash hash v
              ≡ (ok o, v')))
      → ((id_ : String) (v : W)
          → (o : Option UserRecord) × (v' : W) × (repositories.get_user id_ v ≡ (ok o, v')))
      → Settled rid (authenticate hash_virtual_key repositories header rid w).0
  unfolding authenticate with_record
  authenticate_fails_closed header rid w keys users =
      elim (Result-cases (extract_virtual_key header rid)) [
        | inr (e, q) ↦
            let (reason, i, t) = extract_settled header rid e q in
            rw q (inr (reason, i, ap raised t))
        | inl (key, q) ↦
            let (o, w1, g) = keys (hash_virtual_key key) w in rw q (rw g (with_record_settled o w1))
      ]
    where
      with_record_settled :
          (o : Option VirtualKeyRecord) (v : W)
          → Settled rid (with_record hash_virtual_key repositories rid o v).0
      with_record_settled none v = inr ("unknown_virtual_key", there (there (here refl)), refl)
      with_record_settled (some r) v = elim (Bool-cases (is_active_status r.status)) [
        | inr b ↦ rw b (inr ("inactive_virtual_key", there (there (there (here refl))), refl))
        | inl b ↦ let (o, v1, u) = users r.user_id v in rw b (rw u (with_user-Settled rid r o v1))
      ]
