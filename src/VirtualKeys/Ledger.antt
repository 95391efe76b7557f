-- ===== src/VirtualKeys/Ledger.antt =====
-- The key that the ledger gives for a user.
use claude_code_proxy.Prelude.{
  String, true, false, Option, none, some, List, ◌≡◌, ◌≤◌, refl, ap, inl, inr, arith, In,
  Bool-cases, filter, best, best-In, best-top, best-none, In-filter, In_of_filter,
}
use mathlib.Core.Path.{subst}
use claude_code_proxy.Exec.{ok, returned}
use claude_code_proxy.Domain.{
  VirtualKeyRecord, VirtualKeyStatus, active, disabled, revoked, is_active_status,
}
use claude_code_proxy.VirtualKeys.{VirtualKeyStore, get_active_key_for_user, is_active_key, newer}

active_key : (r : VirtualKeyRecord) → is_active_key r ≡ true → r.status ≡ active
active_key r h = of_status r.status h
  where
    of_status : (s : VirtualKeyStatus) → is_active_status s ≡ true → s ≡ active
    of_status active t = refl
    of_status disabled t = cc
    of_status revoked t = cc

-- What the ledger may give out of a user's records.
pub data NewestActive (records : List VirtualKeyRecord) : Option VirtualKeyRecord → Type 0 where
  newest :
      (k : VirtualKeyRecord)
      → In k records
      → k.status ≡ active
      → ((r : VirtualKeyRecord) → In r records → r.status ≡ active → r.created_at ≤ k.created_at)
      → NewestActive records (some k)
  no_active :
      ((r : VirtualKeyRecord) → In r records → is_active_key r ≡ false) → NewestActive records none

chosen-NewestActive :
    (records : List VirtualKeyRecord) (o : Option VirtualKeyRecord)
    → best newer (filter is_active_key records) ≡ o
    → NewestActive records o
chosen-NewestActive records (some k) chosen =
    let (i, a) = In_of_filter is_active_key k records (best-In newer _ k chosen) in
    newest k i (active_key k a) (λ r j t.
      best-top newer (λ x y. y.created_at ≤ x.created_at) (λ x. omega arith)
        (λ x y z p q. omega arith) (λ x y p. ground arith) (λ x y p. ground arith)
        (filter is_active_key records) k r chosen
        (In-filter is_active_key r j (ap is_active_status t)))
chosen-NewestActive records none chosen = no_active inactive
  where
    inactive : (r : VirtualKeyRecord) → In r records → is_active_key r ≡ false
    inactive r j = elim (Bool-cases (is_active_key r)) [
      | inr t ↦ t
      | inl t ↦ elim (subst (In r) (best-none newer _ chosen) (In-filter is_active_key r j t)) [ ]
    ]

-- The key that the ledger gives is one of the user's records, active, and no active record of the
-- user is newer; when it gives none, the user has no active record.
pub get_active_key_for_user-NewestActive :
    {W : Type 0} (store : VirtualKeyStore W) (user_id : String) (w w1 w' : W)
    (records : List VirtualKeyRecord) (o : Option VirtualKeyRecord)
    → store.list_virtual_keys_for_user user_id w ≡ (ok records, w1)
    → get_active_key_for_user store user_id w ≡ (ok o, w')
    → NewestActive records o
unfolding get_active_key_for_user
get_active_key_for_user-NewestActive store user_id w w1 w' records o listed h =
    chosen-NewestActive records o (returned _ o w1 w' (rw listed at h)).0
