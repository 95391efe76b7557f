-- ===== src/Prelude/Lists.antt =====
-- Lists measured by native numbers, and Python's comprehensions and searches over Boolean tests.
use Prim.Native.Nat.{ℕ, suc, ◌+◌, ◌≤◌}
use mathlib.Core.Path.{◌≡◌, refl, sym, ap, ◌∙◌}
use mathlib.Core.Logic.{◌⊎◌, inl, inr}
use mathlib.Core.Bool.{Bool, true, false, ◌&&◌, ◌||◌, false≢true}
use mathlib.Core.Option.{Option, none, some}
use mathlib.Core.List.{List, [], ◌∷◌, ◌++◌}
use native.Mathlib.Omega.{arith}
use claude_code_proxy.Prelude.Tests.{if◌then◌else◌, Bool-cases}

module _ {ℓ} {A : Type ℓ} where
  abbrev pub length : List A → ℕ
  length [] = 0
  length (x ∷ xs) = suc (length xs)

  -- [x for x in xs if p(x)]
  abbrev pub filter : (A → Bool) → List A → List A
  filter p [] = []
  filter p (x ∷ xs) = if p x then x ∷ filter p xs else filter p xs

  -- any(p(x) for x in xs)
  abbrev pub any : (A → Bool) → List A → Bool
  any p [] = false
  any p (x ∷ xs) = p x || any p xs

  -- all(p(x) for x in xs)
  abbrev pub all : (A → Bool) → List A → Bool
  all p [] = true
  all p (x ∷ xs) = p x && all p xs

  -- next((x for x in xs if p(x)), None)
  abbrev pub find : (A → Bool) → List A → Option A
  find p [] = none
  find p (x ∷ xs) = if p x then some x else find p xs

-- An element of a list, by its place: data, so that it is taken apart into anything.
pub data In {ℓ} {A : Type ℓ} (a : A) : List A → Type ℓ where
  here : {x : A} {xs : List A} → a ≡ x → In a (x ∷ xs)
  there : {x : A} {xs : List A} → In a xs → In a (x ∷ xs)

module _ {ℓ} {A : Type ℓ} where
  pub length-append : (xs ys : List A) → length (xs ++ ys) ≡ length xs + length ys
  length-append [] ys = omega arith
  length-append (x ∷ xs) ys = omega (arith, length-append xs ys)

  pub length-filter-le : (p : A → Bool) (xs : List A) → length (filter p xs) ≤ length xs
  length-filter-le p [] = omega arith
  length-filter-le p (x ∷ xs) = ground (arith, length-filter-le p xs)

  pub In-filter : (p : A → Bool) (a : A) {xs : List A} → In a xs → p a ≡ true → In a (filter p xs)
  In-filter p a (here {x = x} e) t = rw (ap p (sym e) ∙ t) (here e)
  In-filter p a (there {x = x} {xs = xs} h) t = elim (Bool-cases (p x)) [
    | inl e ↦ rw e (there (In-filter p a h t))
    | inr e ↦ rw e (In-filter p a h t)
  ]

  pub In_of_filter :
      (p : A → Bool) (a : A) (xs : List A) → In a (filter p xs) → In a xs × (p a ≡ true)
  In_of_filter p a [] h = elim h [ ]
  In_of_filter p a (x ∷ xs) h = elim (Bool-cases (p x)) [
    | inl e ↦ in_kept e (rw e at h) (In_of_filter p a xs)
    | inr e ↦ let (m, t) = In_of_filter p a xs (rw e at h) in (there m, t)
  ]
    where
      in_kept :
          p x ≡ true
          → In a (x ∷ filter p xs)
          → (In a (filter p xs) → In a xs × (p a ≡ true))
          → In a (x ∷ xs) × (p a ≡ true)
      in_kept t (here e) ih = (here e, ap p e ∙ t)
      in_kept t (there g) ih = let (m, t') = ih g in (there m, t')

  pub In-append_left : (a : A) {xs : List A} (ys : List A) → In a xs → In a (xs ++ ys)
  In-append_left a ys (here e) = here e
  In-append_left a ys (there h) = there (In-append_left a ys h)

  pub In-append_right : (a : A) (xs : List A) {ys : List A} → In a ys → In a (xs ++ ys)
  In-append_right a [] h = h
  In-append_right a (x ∷ xs) h = there (In-append_right a xs h)

  pub In_of_append : (a : A) (xs ys : List A) → In a (xs ++ ys) → In a xs ⊎ In a ys
  In_of_append a [] ys h = inr h
  In_of_append a (x ∷ xs) ys (here e) = inl (here e)
  In_of_append a (x ∷ xs) ys (there h) = elim (In_of_append a xs ys h) [
    | inl l ↦ inl (there l)
    | inr r ↦ inr r
  ]

  pub any_of_In : (p : A → Bool) (a : A) {xs : List A} → In a xs → p a ≡ true → any p xs ≡ true
  any_of_In p a (here {x = x} e) t = rw (ap p (sym e) ∙ t)
  any_of_In p a (there {x = x} {xs = xs} h) t = ground (arith, any_of_In p a h t)

  pub In_of_any : (p : A → Bool) (xs : List A) → any p xs ≡ true → (a : A) × In a xs × (p a ≡ true)
  In_of_any p [] h = absurd (false≢true h)
  In_of_any p (x ∷ xs) h = elim (Bool-cases (p x)) [
    | inl e ↦ (x, here refl, e)
    | inr e ↦ let (a, m, t) = In_of_any p xs (ground arith) in (a, there m, t)
  ]

  pub any-find-none : (p : A → Bool) (xs : List A) → find p xs ≡ none → any p xs ≡ false
  any-find-none p [] h = refl
  any-find-none p (x ∷ xs) h = ground (arith, any-find-none p xs)

  pub any-find-some : (p : A → Bool) (xs : List A) (a : A) → find p xs ≡ some a → any p xs ≡ true
  any-find-some p [] a h = cc
  any-find-some p (x ∷ xs) a h = ground (arith, any-find-some p xs a)

  pub filter_idem : (p : A → Bool) (xs : List A) → filter p (filter p xs) ≡ filter p xs
  filter_idem p [] = refl
  filter_idem p (x ∷ xs) = elim (Bool-cases (p x)) [
    | inl e ↦ rw e (rw e (ap (◌∷◌ x) (filter_idem p xs)))
    | inr e ↦ rw e (filter_idem p xs)
  ]

  pub filter-append :
      (p : A → Bool) (xs ys : List A) → filter p (xs ++ ys) ≡ filter p xs ++ filter p ys
  filter-append p [] ys = refl
  filter-append p (x ∷ xs) ys = ground (arith, filter-append p xs ys)

  pub filter-none :
      (p : A → Bool) (xs : List A) → ((a : A) → In a xs → p a ≡ false) → filter p xs ≡ []
  filter-none p [] h = refl
  filter-none p (x ∷ xs) h = rw (h x (here refl)) (filter-none p xs (λ a m. h a (there m)))
