-- ===== src/Prelude/Best.antt =====
-- Python's `max` and `min` with a key: the first of the elements that no other one beats.
use mathlib.Core.Path.{◌≡◌, refl, sym, subst}
use mathlib.Core.Logic.{inl, inr}
use mathlib.Core.Bool.{Bool, true, false}
use mathlib.Core.Option.{Option, none, some}
use mathlib.Core.List.{List, [], ◌∷◌}
use claude_code_proxy.Prelude.Tests.{if◌then◌else◌, Bool-cases}
use claude_code_proxy.Prelude.Lists.{In, here, there}

pub some_inj {ℓ} : {A : Type ℓ} {a b : A} → some a ≡ some b → a ≡ b
some_inj h = cc

module _ {ℓ} {A : Type ℓ} (beats : A → A → Bool) where
  -- A later element replaces the current one only where it strictly beats it.
  abbrev pub best_from : A → List A → A
  best_from cur [] = cur
  best_from cur (x ∷ xs) = best_from (if beats x cur then x else cur) xs

  abbrev pub best : List A → Option A
  best [] = none
  best (x ∷ xs) = some (best_from x xs)

  pub best_from-In : (cur : A) (xs : List A) → In (best_from cur xs) (cur ∷ xs)
  best_from-In cur [] = here refl
  best_from-In cur (x ∷ xs) = go (beats x cur) (best_from-In (if beats x cur then x else cur) xs)
    where
      go :
          (b : Bool)
          → In (best_from (if beats x cur then x else cur) xs) ((if b then x else cur) ∷ xs)
          → In (best_from (if beats x cur then x else cur) xs) (cur ∷ x ∷ xs)
      go true (here e) = there (here e)
      go true (there h) = there (there h)
      go false (here e) = here e
      go false (there h) = there (there h)

  pub best-In : (xs : List A) (a : A) → best xs ≡ some a → In a xs
  best-In [] a h = cc
  best-In (x ∷ xs) a h = subst (λ b. In b (x ∷ xs)) (some_inj h) (best_from-In x xs)

  -- A relation that the test decides one way or the other holds of the choice and each element.
  module _ {κ} (Q : A → A → Type κ) (same : (a : A) → Q a a)
      (chain : (a b c : A) → Q a b → Q b c → Q a c) (wins : (a b : A) → beats a b ≡ true → Q a b)
      (loses : (a b : A) → beats a b ≡ false → Q b a) where
    best_from-first : (cur : A) (xs : List A) → Q (best_from cur xs) cur
    best_from-first cur [] = same cur
    best_from-first cur (x ∷ xs) = elim (Bool-cases (beats x cur)) [
      | inl e ↦ rw e (chain _ x cur (best_from-first x xs) (wins x cur e))
      | inr e ↦ rw e (best_from-first cur xs)
    ]

    best_from-rest : (a cur : A) {xs : List A} → In a xs → Q (best_from cur xs) a
    best_from-rest a cur (here {x = x} {xs = xs} e) = rw e (elim (Bool-cases (beats x cur)) [
      | inl t ↦ rw t (best_from-first x xs)
      | inr t ↦ rw t (chain _ cur x (best_from-first cur xs) (loses x cur t))
    ])
    best_from-rest a cur (there {x = x} h) = best_from-rest a (if beats x cur then x else cur) h

    pub best-top : (xs : List A) (b a : A) → best xs ≡ some b → In a xs → Q b a
    best-top [] b a h m = elim m [ ]
    best-top (x ∷ xs) b a h (here e) =
        subst (λ c. Q c a) (some_inj h) (subst (Q (best_from x xs)) (sym e) (best_from-first x xs))
    best-top (x ∷ xs) b a h (there m) = subst (λ c. Q c a) (some_inj h) (best_from-rest a x m)

  pub best-none : (xs : List A) → best xs ≡ none → xs ≡ []
  best-none [] h = refl
  best-none (x ∷ xs) h = cc
