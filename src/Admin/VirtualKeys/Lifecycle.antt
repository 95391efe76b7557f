-- ===== src/Admin/VirtualKeys/Lifecycle.antt =====
-- What a key is good for once an operator has revoked, disabled or replaced it.
use claude_code_proxy.Prelude.{ℕ, String, false, Option, some, ◌≡◌, ◌≢◌, refl, sym, ap, ◌∙◌}
use claude_code_proxy.Exec.{ok, raised, bind_ok, returned}
use claude_code_proxy.Domain.{VirtualKeyRecord, active, disabled, revoked, is_active_status}
use claude_code_proxy.Auth.{
  AuthRepositories, authenticate, with_record, extract_virtual_key, authentication_error,
}
use claude_code_proxy.Admin.VirtualKeys.{
  LifecycleServices, require_key, invalidate, retire, revoke, disable, rotate, replace_key,
  replacement,
}

-- What the repository of keys promises, and that the other services leave it alone: a record that was saved
-- is the one that is found by its hash, until a record with the same hash is saved.
pub record LedgerLaws {W : Type 0} (s : LifecycleServices W) (repositories : AuthRepositories W)
    : Type 1 where
  pub holds : VirtualKeyRecord → W → Type 0
  pub saved : (r : VirtualKeyRecord) (w w' : W) → s.save_key r w ≡ (ok tt, w') → holds r w'
  pub found :
      (r : VirtualKeyRecord) (w : W)
      → holds r w
      → repositories.get_key_by_hash r.key_hash w ≡ (ok (some r), w)
  pub kept_by_save :
      (r r' : VirtualKeyRecord) (w w' : W)
      → r'.key_hash ≢ r.key_hash
      → s.save_key r' w ≡ (ok tt, w')
      → holds r w
      → holds r w'
  pub kept_by_token_cache :
      (r : VirtualKeyRecord) (user : String) (w w' : W)
      → s.invalidate_token_service_cache user w ≡ (ok tt, w')
      → holds r w
      → holds r w'
  pub kept_by_auth_cache :
      (r : VirtualKeyRecord) (id_ : String) (w w' : W)
      → s.invalidate_proxy_auth_cache id_ w ≡ (ok tt, w')
      → holds r w
      → holds r w'

module _ {W : Type 0} (s : LifecycleServices W) (repositories : AuthRepositories W)
    (laws : LedgerLaws s repositories) where
  retire-holds :
      (r out : VirtualKeyRecord) (w w' : W)
      → retire s r w ≡ (ok out, w')
      → (out ≡ r) × laws.holds r w'
  unfolding retire invalidate
  retire-holds r out w w' h =
      let (u, w1, q1, h1) = bind_ok (s.save_key r) _ w w' out h in
      let (v, w2, q2, h2) = bind_ok (invalidate s r) _ w1 w' out h1 in
      let (x, w3, q3, h3) = bind_ok (s.invalidate_token_service_cache r.user_id) _ w1 w2 v q2 in
      let (e, t) = returned r out w2 w' h2 in
      (
        sym e,
        rw (← t) (
            laws.kept_by_auth_cache r r.id w3 w2 h3
              (laws.kept_by_token_cache r r.user_id w1 w3 q3 (laws.saved r w w1 q1))),
      )

  -- A record that is kept but not active is refused, whoever asks.
  refused :
      (r : VirtualKeyRecord) (header : Option String) (key rid : String) (w : W)
      → laws.holds r w
      → is_active_status r.status ≡ false
      → extract_virtual_key header rid ≡ ok key
      → s.hash_virtual_key key ≡ r.key_hash
      → authenticate s.hash_virtual_key repositories header rid w
        ≡ (raised (authentication_error rid "inactive_virtual_key"), w)
  unfolding authenticate with_record
  refused r header key rid w h a x k = rw (x, k, laws.found r w h) (rw a refl)

  -- A key in this record, carried by this header, is refused as inactive.
  abbrev pub IsRefused : VirtualKeyRecord → Option String → String → W → Type 0
  IsRefused r header rid w =
      authenticate s.hash_virtual_key repositories header rid w
      ≡ (raised (authentication_error rid "inactive_virtual_key"), w)

  -- Once `revoke` has returned, its record is that of a revoked key, and every request that carries the key
  -- is refused as inactive, with no cache in between.
  pub revoke-IsRefused :
      (key_id : String) (r : VirtualKeyRecord) (header : Option String) (key rid : String)
      (w w' : W)
      → revoke s key_id w ≡ (ok r, w')
      → extract_virtual_key header rid ≡ ok key
      → s.hash_virtual_key key ≡ r.key_hash
      → (r.status ≡ revoked) × IsRefused r header rid w'
  unfolding revoke
  revoke-IsRefused key_id r header key rid w w' h x k =
      let (old, w1, q1, h1) = bind_ok (require_key s key_id) _ w w' r h in
      let (now, w2, q2, h2) = bind_ok s.clock _ w1 w' r h1 in
      let (e, kept) =
        retire-holds (record old { status = revoked; revoked_at = some now }) r w2 w' h2 in
      let status = ap (λ (z : VirtualKeyRecord). z.status) e in
      (status, refused r header key rid w' (rw e kept) (ap is_active_status status) x k)

  -- The same of a key that `disable` has returned.
  pub disable-IsRefused :
      (key_id : String) (r : VirtualKeyRecord) (header : Option String) (key rid : String)
      (w w' : W)
      → disable s key_id w ≡ (ok r, w')
      → extract_virtual_key header rid ≡ ok key
      → s.hash_virtual_key key ≡ r.key_hash
      → (r.status ≡ disabled) × IsRefused r header rid w'
  unfolding disable
  disable-IsRefused key_id r header key rid w w' h x k =
      let (old, w1, q1, h1) = bind_ok (require_key s key_id) _ w w' r h in
      let (e, kept) = retire-holds (record old { status = disabled }) r w1 w' h1 in
      let status = ap (λ (z : VirtualKeyRecord). z.status) e in
      (status, refused r header key rid w' (rw e kept) (ap is_active_status status) x k)

  -- What `rotate` leaves behind: the old key is refused, and the record of the new one is active, belongs to
  -- the same user and is what the ledger finds by its hash.
  pub record IsRotated (previous new : VirtualKeyRecord) (header : Option String) (rid : String)
      (w' : W) : Type 0 where
    pub old_status : previous.status ≡ disabled
    pub old_refused : IsRefused previous header rid w'
    pub new_status : new.status ≡ active
    pub same_user : new.user_id ≡ previous.user_id
    pub new_found : repositories.get_key_by_hash new.key_hash w' ≡ (ok (some new), w')

  -- The ledger with the replaced key and the new one, after steps that leave it alone.
  pub record KeepsLedger : Type 0 where
    pub by_generator :
        (r : VirtualKeyRecord) (k : String) (w w' : W)
        → s.key_generator w ≡ (ok k, w')
        → laws.holds r w
        → laws.holds r w'
    pub by_clock :
        (r : VirtualKeyRecord) (t : ℕ) (w w' : W)
        → s.clock w ≡ (ok t, w')
        → laws.holds r w
        → laws.holds r w'
    pub by_ids :
        (r : VirtualKeyRecord) (k : String) (w w' : W)
        → s.key_id_generator w ≡ (ok k, w')
        → laws.holds r w
        → laws.holds r w'
    pub by_encryption :
        (r : VirtualKeyRecord) (k blob : String) (w w' : W)
        → s.encrypt k w ≡ (ok blob, w')
        → laws.holds r w
        → laws.holds r w'

  record Replaced (old retired previous new : VirtualKeyRecord) (w' : W) : Type 0 where
    is_previous : previous ≡ retired
    old_held : laws.holds retired w'
    new_held : laws.holds new w'
    is_active : new.status ≡ active
    is_of_user : new.user_id ≡ old.user_id

  replace_key-Replaced :
      (keeps : KeepsLedger) (old retired previous new : VirtualKeyRecord) (w w' : W)
      → replace_key s old retired w ≡ (ok (previous, new), w')
      → new.key_hash ≢ previous.key_hash
      → laws.holds retired w
      → Replaced old retired previous new w'
  unfolding replace_key
  replace_key-Replaced keeps old retired previous new w w' h n held =
      let (key, w1, q1, h1) = bind_ok s.key_generator _ w w' (previous, new) h in
      let (now, w2, q2, h2) = bind_ok s.clock _ w1 w' (previous, new) h1 in
      let (id_, w3, q3, h3) = bind_ok s.key_id_generator _ w2 w' (previous, new) h2 in
      let (blob, w4, q4, h4) = bind_ok (s.encrypt key) _ w3 w' (previous, new) h3 in
      let (u, w5, q5, h5) =
        bind_ok (s.save_key (replacement s old key now id_ blob)) _ w4 w' (previous, new) h4 in
      let held4 = keeps.by_encryption retired key blob w3 w4 q4 (
        keeps.by_ids retired id_ w2 w3 q3
          (keeps.by_clock retired now w1 w2 q2 (keeps.by_generator retired key w w1 q1 held))) in
      saved (replacement s old key now id_ blob) w4 w5 q5 held4 refl refl (
        returned {A = VirtualKeyRecord × VirtualKeyRecord}
          (retired, replacement s old key now id_ blob) (previous, new) w5 w' h5)
    where
      saved :
          (r : VirtualKeyRecord) (v v' : W)
          → s.save_key r v ≡ (ok tt, v')
          → laws.holds retired v
          → r.status ≡ active
          → r.user_id ≡ old.user_id
          → (◌≡◌ {A = VirtualKeyRecord × VirtualKeyRecord} (retired, r) (previous, new)) × (v' ≡ w')
          → Replaced old retired previous new w'
      saved r v v' q held a b (e, t) =
          let p = ap (λ (z : VirtualKeyRecord × VirtualKeyRecord). z.0) e in
          let m = ap (λ (z : VirtualKeyRecord × VirtualKeyRecord). z.1) e in
          record {
            is_previous = sym p;
            old_held = rw (← t) (
                laws.kept_by_save retired r v v'
                  (λ z. n (ap (λ y. y.key_hash) (sym m) ∙ z ∙ ap (λ y. y.key_hash) p)) q held);
            new_held = rw (← m, ← t) (laws.saved r v v' q);
            is_active = ap (λ y. y.status) (sym m) ∙ a;
            is_of_user = ap (λ y. y.user_id) (sym m) ∙ b;
          }

  -- Once `rotate` has returned, and the new key has another hash, a request that carries the old key is
  -- refused, and the new key is an active key of the same user that the ledger finds.
  pub rotate-IsRotated :
      (keeps : KeepsLedger) (key_id : String) (previous new : VirtualKeyRecord)
      (header : Option String) (key rid : String) (w w' : W)
      → rotate s key_id w ≡ (ok (previous, new), w')
      → new.key_hash ≢ previous.key_hash
      → extract_virtual_key header rid ≡ ok key
      → s.hash_virtual_key key ≡ previous.key_hash
      → IsRotated previous new header rid w'
  unfolding rotate
  rotate-IsRotated keeps key_id previous new header key rid w w' h n x k =
      let (old, w1, q1, h1) = bind_ok (require_key s key_id) _ w w' (previous, new) h in
      let (retired, w2, q2, h2) =
        bind_ok (retire s (record old { status = disabled })) _ w1 w' (previous, new) h1 in
      let (e, kept) = retire-holds (record old { status = disabled }) retired w1 w2 q2 in
      let x' = replace_key-Replaced keeps old retired previous new w2 w' h2 n (rw e kept) in
      let status = ap (λ (z : VirtualKeyRecord). z.status) (x'.is_previous ∙ e) in
      record {
        old_status = status;
        old_refused =
            refused previous header key rid w' (rw x'.is_previous x'.old_held)
              (ap is_active_status status) x k;
        new_status = x'.is_active;
        same_user =
            x'.is_of_user ∙ ap (λ (z : VirtualKeyRecord). z.user_id) (sym (x'.is_previous ∙ e));
        new_found = laws.found new w' x'.new_held;
      }
