-- ===== src/TokenService/Issue/Gate.antt =====
-- Who gets a key, and where it comes from.
use mathlib.Core.Path.{subst}
use claude_code_proxy.Prelude.{
  ℕ, zero, suc, ◌≤◌, String, true, not, ◌||◌, Option, none, some, ◌≡◌, refl, ap, ◌∙◌, ◌⊎◌, inl, inr,
  arith, Bool-cases,
}
use claude_code_proxy.Prelude.Int.{ℤ, pos, negsuc}
use claude_code_proxy.Exec.{ok, bind_ok, returned, not_returned}
use claude_code_proxy.Domain.{
  UserRecord, VirtualKeyRecord, VirtualKeyCacheEntry, TokenIssueResult, cache, reused, issued,
  active,
}
use claude_code_proxy.Keys.{get_virtual_key_prefix}
use claude_code_proxy.TokenService.Issue.{
  IssueServices, get_or_create_key, on_cache, from_cache, from_ledger, reuse_key, issue_new_key,
  require_allowed_user, check_user, cache_key_record, entry_of_record, new_record,
  normalize_cache_ttl, max_cache_ttl,
}

-- The cache lifetime is positive and at most an hour, whatever was configured.
pub normalize_cache_ttl_bounds :
    (t : ℤ) → (1 ≤ normalize_cache_ttl t) × (normalize_cache_ttl t ≤ max_cache_ttl)
unfolding normalize_cache_ttl
normalize_cache_ttl_bounds (pos zero) = omega arith
normalize_cache_ttl_bounds (pos (suc n)) = omega arith
normalize_cache_ttl_bounds (negsuc n) = omega arith

module _ {W : Type 0} (s : IssueServices W) where
  -- A user that the service lets have a key.
  pub record Allowed (user_id : String) (w w' : W) (user : UserRecord) : Type 0 where
    pub known : s.get_user user_id w ≡ (ok (some user), w')
    pub is_active : user.is_active ≡ true
    pub has_access : user.proxy_access_enabled ≡ true

  check_user_ok :
      (rid : String) (o : Option UserRecord) (user : UserRecord) (w w' : W)
      → check_user s rid o w ≡ (ok user, w')
      → (o ≡ some user) × (user.is_active ≡ true) × (user.proxy_access_enabled ≡ true) × (w ≡ w')
  unfolding check_user
  check_user_ok rid none user w w' h = absurd (not_returned _ user w w' h)
  check_user_ok rid (some u) user w w' h =
      elim (Bool-cases (not u.proxy_access_enabled || not u.is_active)) [
        | inl b ↦ absurd (not_returned _ user w w' (rw b at h))
        | inr b ↦
            let (e, v) = returned u user w w' (rw b at h) in
            (ap some e, rw (← e) (ground (arith, b)), rw (← e) (ground (arith, b)), v)
      ]

  require_allowed_user_ok :
      (user_id rid : String) (user : UserRecord) (w w' : W)
      → require_allowed_user s user_id rid w ≡ (ok user, w')
      → Allowed user_id w w' user
  unfolding require_allowed_user
  require_allowed_user_ok user_id rid user w w' h =
      let (o, w1, g, h1) = bind_ok (s.get_user user_id) _ w w' user h in
      let (e, a, b, v) = check_user_ok rid o user w1 w' h1 in
      record { known = g ∙ (rw (e, v)); is_active = a; has_access = b }

  -- What holds of a key that is issued: the steps of the call, each in the world that the step before
  -- it left.
  pub record Issued (user : UserRecord) (now : ℕ) (w w' : W) (r : TokenIssueResult) : Type 0 where
    pub blob : String
    pub generated : W
    pub encrypted : W
    pub named : W
    pub saved : W
    pub key : s.key_generator w ≡ (ok r.virtual_key, generated)
    pub cipher : s.encrypt r.virtual_key generated ≡ (ok blob, encrypted)
    pub id_ : s.uuid encrypted ≡ (ok r.key_id, named)
    pub stored :
        s.save_key (new_record s user now r.virtual_key blob r.key_id) named ≡ (ok tt, saved)
    pub cached :
        s.key_cache.put_active_key
          (entry_of_record s (new_record s user now r.virtual_key blob r.key_id) now)
          saved
        ≡ (ok tt, w')
    pub owner : r.user_id ≡ user.id
    pub prefix : r.key_prefix ≡ get_virtual_key_prefix r.virtual_key
    pub status : r.status ≡ active

  pub issue_new_key-Issued :
      (user : UserRecord) (now : ℕ) (w w' : W) (r : TokenIssueResult)
      → issue_new_key s user now w ≡ (ok r, w')
      → (r.source ≡ issued) × Issued user now w w' r
  unfolding issue_new_key cache_key_record
  issue_new_key-Issued user now w w' r h =
      let (key, w1, e1, h1) = bind_ok s.key_generator _ w w' r h in
      let (blob, w2, e2, h2) = bind_ok (s.encrypt key) _ w1 w' r h1 in
      let (id_, w3, e3, h3) = bind_ok s.uuid _ w2 w' r h2 in
      let (t, w4, e4, h4) =
        bind_ok (s.save_key (new_record s user now key blob id_)) _ w3 w' r h3 in
      let (t', w5, e5, h5) = bind_ok (s.key_cache.put_active_key _) _ w4 w' r h4 in
      let (q, v) = returned _ r w5 w' h5 in
      subst (λ (x : TokenIssueResult). (x.source ≡ issued) × Issued user now w w' x) q
        (
          refl,
          record {
            blob = blob;
            generated = w1;
            encrypted = w2;
            named = w3;
            saved = w4;
            key = e1;
            cipher = e2;
            id_ = e3;
            stored = e4;
            cached = e5 ∙ ap (λ x. (ok tt, x)) v;
            owner = refl;
            prefix = refl;
            status = refl;
          },
        )

  reuse_key_ok :
      (user : UserRecord) (now : ℕ) (existing : VirtualKeyRecord) (w w' : W) (r : TokenIssueResult)
      → reuse_key s user now existing w ≡ (ok r, w')
      → (r.source ≡ reused) × (r.user_id ≡ user.id) × (r.key_id ≡ existing.id)
  unfolding reuse_key cache_key_record
  reuse_key_ok user now existing w w' r h =
      let (t, w1, e1, h1) = bind_ok (s.key_cache.put_active_key _) _ w w' r h in
      let (key, w2, e2, h2) = bind_ok (s.decrypt existing.encrypted_key_blob) _ w1 w' r h1 in
      let (q, v) = returned _ r w2 w' h2 in rw (← q) (refl, refl, refl)

  from_cache_ok :
      (user_id : String) (e : VirtualKeyCacheEntry) (w w' : W) (r : TokenIssueResult)
      → from_cache s user_id e w ≡ (ok r, w')
      → (r.source ≡ cache) × (r.user_id ≡ user_id) × (r.key_id ≡ e.virtual_key_id)
  unfolding from_cache
  from_cache_ok user_id e w w' r h =
      let (key, w1, e1, h1) = bind_ok (s.decrypt e.encrypted_key_ref) _ w w' r h in
      let (q, v) = returned _ r w1 w' h1 in rw (← q) (refl, refl, refl)

  -- Whoever gets a key without a cached one is a registered, active user with proxy access, and
  -- the key is the user's own: the ledger's if it has an active one, else a new one.
  pub record Permitted (user_id : String) (r : TokenIssueResult) : Type 0 where
    pub before : W
    pub after : W
    pub user : UserRecord
    pub allowed : Allowed user_id before after user
    pub owner : r.user_id ≡ user.id

  from_ledger_ok :
      (user : UserRecord) (now : ℕ) (o : Option VirtualKeyRecord) (w w' : W) (r : TokenIssueResult)
      → from_ledger s user now o w ≡ (ok r, w')
      → r.user_id ≡ user.id
  unfolding from_ledger
  from_ledger_ok user now none w w' r h =
      let (e, i) = issue_new_key-Issued user now w w' r h in i.owner
  from_ledger_ok user now (some x) w w' r h = let (e, i, k) = reuse_key_ok user now x w w' r h in i

  on_cache_ok :
      (user_id rid : String) (now : ℕ) (o : Option VirtualKeyCacheEntry) (w w' : W)
      (r : TokenIssueResult)
      → on_cache s user_id rid now o w ≡ (ok r, w')
      → (r.source ≡ cache) ⊎ Permitted user_id r
  unfolding on_cache
  on_cache_ok user_id rid now (some e) w w' r h =
      let (q, i, k) = from_cache_ok user_id e w w' r h in inl q
  on_cache_ok user_id rid now none w w' r h =
      let (user, w1, e1, h1) = bind_ok (require_allowed_user s user_id rid) _ w w' r h in
      let (o, w2, e2, h2) = bind_ok (s.get_active_key_for_user user.id) _ w1 w' r h1 in
      inr (record {
        before = w;
        after = w1;
        user = user;
        allowed = require_allowed_user_ok user_id rid user w w1 e1;
        owner = from_ledger_ok user now o w2 w' r h2;
      })

  -- A key that `get_or_create_key` returns comes from the cache, or it belongs to a user that was
  -- found registered, active and with proxy access during the call.
  pub get_or_create_key-Permitted :
      (user_id rid : String) (w w' : W) (r : TokenIssueResult)
      → get_or_create_key s user_id rid w ≡ (ok r, w')
      → (r.source ≡ cache) ⊎ Permitted user_id r
  unfolding get_or_create_key
  get_or_create_key-Permitted user_id rid w w' r h =
      let (now, w1, e1, h1) = bind_ok s.clock _ w w' r h in
      let (o, w2, e2, h2) = bind_ok (s.key_cache.get_active_key user_id now) _ w1 w' r h1 in
      on_cache_ok user_id rid now o w2 w' r h2
