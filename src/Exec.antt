-- ===== src/Exec.antt =====
-- Python exceptions, and code that may raise them while it changes the world around it.
use claude_code_proxy.Prelude.{ℕ, String, ◌≡◌, refl, ap, ◌⊎◌, inl, inr}
use claude_code_proxy.Errors.{ServiceError}

-- The classes that the program's own code raises and tells apart by `except` and `isinstance`;
-- `other` is any other exception, by the name of its class.
pub data Exn : Type 0 where
  service : ServiceError → Exn
  request_build : (reason message : String) → Exn
  model_resolution : (requested_model reason message : String) → Exn
  identity_resolution : (message : String) → Exn
  http : (status_code : ℕ) (detail : String) → Exn
  other : (class_name : String) → Exn

pub data Result {ℓ} (A : Type ℓ) : Type ℓ where
  ok : A → Result A
  raised : Exn → Result A

-- Code that raises and keeps no state.
module _ {ℓ κ} {A : Type ℓ} {B : Type κ} where
  infixl 5 ◌>>?◌
  abbrev pub ◌>>?◌ : Result A → (A → Result B) → Result B
  ok a >>? f = f a
  raised e >>? f = raised e

pub step_ok {ℓ κ} :
    {A : Type ℓ} {B : Type κ} (r : Result A) (f : A → Result B) (b : B)
    → (r >>? f) ≡ ok b
    → (a : A) × (r ≡ ok a) × (f a ≡ ok b)
step_ok (ok a) f b h = (a, refl, h)
step_ok (raised e) f b h = cc h

-- Code that also acts on a world `W`: what was done before an exception stays done.
abbrev pub Exec {ℓ} : Type ℓ → Type ℓ → Type ℓ
Exec W A = W → Result A × W

module _ {ℓ} {W A : Type ℓ} where
  abbrev pub pure : A → Exec W A
  pure a w = (ok a, w)

  abbrev pub raise : Exn → Exec W A
  raise e w = (raised e, w)

  abbrev pub lift : Result A → Exec W A
  lift r w = (r, w)

module _ {ℓ} {W A B : Type ℓ} where
  abbrev pub continue : Result A × W → (A → Exec W B) → Result B × W
  continue (ok a, w) f = f a w
  continue (raised e, w) f = (raised e, w)

  infixl 5 ◌>>=◌ ◌>>◌
  abbrev pub ◌>>=◌ : Exec W A → (A → Exec W B) → Exec W B
  ◌>>=◌ m f w = continue (m w) f

  abbrev pub ◌>>◌ : Exec W A → Exec W B → Exec W B
  m >> k = m >>= λ _. k

pub Result-cases {ℓ} :
    {A : Type ℓ} (r : Result A) → ((a : A) × (r ≡ ok a)) ⊎ ((e : Exn) × (r ≡ raised e))
Result-cases (ok a) = inl (a, refl)
Result-cases (raised e) = inr (e, refl)

pub ok_inj {ℓ} : {A : Type ℓ} {a b : A} → ok a ≡ ok b → a ≡ b
ok_inj h = cc

module _ {ℓ} {W A B : Type ℓ} where
  -- A sequence that returns has returned at each step.
  pub bind_ok :
      (m : Exec W A) (f : A → Exec W B) (w w'' : W) (b : B)
      → (m >>= f) w ≡ (ok b, w'')
      → (a : A) × (w' : W) × (m w ≡ (ok a, w')) × (f a w' ≡ (ok b, w''))
  bind_ok m f w w'' b h = go (m w) refl h
    where
      go :
          (r : Result A × W)
          → m w ≡ r
          → continue r f ≡ (ok b, w'')
          → (a : A) × (w' : W) × (m w ≡ (ok a, w')) × (f a w' ≡ (ok b, w''))
      go (ok a, w') e q = (a, w', e, q)
      go (raised x, w') e q = absurd (raised_not_ok (ap (λ (z : Result B × W). z.0) q))
        where
          raised_not_ok : raised x ≡ ok b → ⊥
          raised_not_ok p = cc

  pub lift_bind_ok :
      (r : Result A) (f : A → Exec W B) (w w'' : W) (b : B)
      → (lift r >>= f) w ≡ (ok b, w'')
      → (a : A) × (r ≡ ok a) × (f a w ≡ (ok b, w''))
  lift_bind_ok (ok a) f w w'' b h = (a, refl, h)
  lift_bind_ok (raised x) f w w'' b h = cc (ap (λ (z : Result B × W). z.0) h)

-- What an action that returns has returned, and where it left the world.
pub returned {ℓ} : {W A : Type ℓ} (a b : A) (w w' : W) → pure a w ≡ (ok b, w') → (a ≡ b) × (w ≡ w')
returned {W = W} {A = A} a b w w' h =
    (ok_inj (ap (λ (z : Result A × W). z.0) h), ap (λ (z : Result A × W). z.1) h)

pub not_returned {ℓ} : {W A : Type ℓ} (e : Exn) (b : A) (w w' : W) → raise e w ≡ (ok b, w') → ⊥
not_returned {W = W} {A = A} e b w w' h = cc (ap (λ (z : Result A × W). z.0) h)
