-- ===== src/Text/Laws.antt =====
-- Laws of the text functions that the round trips of keys and headers rest on.
use Prim.Native.String.{[], ◌∷◌, ◌++◌}
use Prim.Native.String.append
use Prim.Native.String.compare
use text.Mathlib.TextEquality.{Char-path}
use claude_code_proxy.Prelude.{
  String, Char, code, true, false, Option, none, some, ◌==◌, ◌≡◌, refl, sym, ap, ◌∙◌, arith,
  Bool-cases, Option-cases, str_eq, some_inj, inl, inr,
}
use claude_code_proxy.Text.{
  is_space, lstrip, rstrip, strip, partition_blank, has_prefix, drop_chars, count_chars,
}

pub has_prefix-append : (p s : String) → has_prefix p (p ++ s) ≡ true
unfolding has_prefix
has_prefix-append [] s = refl
has_prefix-append (c ∷ p) s = rw (append.cons c p s) (ground (arith, has_prefix-append p s))

pub drop_chars-append : (p s : String) → drop_chars (count_chars p) (p ++ s) ≡ s
unfolding drop_chars count_chars
drop_chars-append [] s = append.nil s
drop_chars-append (c ∷ p) s = rw (append.cons c p s) (drop_chars-append p s)

pair_inj {ℓ} :
    {A B : Type ℓ} {a c : A} {b d : B}
    → ◌≡◌ {A = Option (A × B)} (some (a, b)) (some (c, d))
    → (a ≡ c) × (b ≡ d)
pair_inj {A = A} {B = B} h =
    let q = some_inj h in (ap (λ (p : A × B). p.0) q, ap (λ (p : A × B). p.1) q)

abbrev blank : Char
blank = " "

append-blank : (t : String) → " " ++ t ≡ blank ∷ t
append-blank t = append.cons blank [] t ∙ ap (λ (u : String). blank ∷ u) (append.nil t)

partition_blank_step :
    (c : Char) (s : String)
    → (code c == 32) ≡ false
    → partition_blank (c ∷ s)
      ≡ (elim (partition_blank s) [ none ↦ none | some (h, t) ↦ some (c ∷ h, t) ])
unfolding partition_blank
partition_blank_step c s e = rw e

-- A text is what `partition` gives: the part before the first blank, the blank, the rest.
pub append-partition_blank :
    (s h t : String) → partition_blank s ≡ some (h, t) → s ≡ h ++ (" " ++ t)
unfolding partition_blank
append-partition_blank [] h t e = cc
append-partition_blank (c ∷ s) h t e = elim (Bool-cases (code c == 32)) [
  | inl b ↦
      let q = pair_inj (rw b at e) in
      let is_blank : c ≡ blank = Char-path c blank (ground (arith, b)) in
      rw (← q.0, ← q.1, is_blank) (sym (append.nil (" " ++ s) ∙ append-blank s))
  | inr b ↦ elim (Option-cases (partition_blank s)) [
    | inl n ↦ absurd (ground (arith, e, b, n))
    | inr ((h', t'), n) ↦
        let q = pair_inj {a = c ∷ h'} {b = t'} (sym (partition_blank_step c s b ∙ rw n) ∙ e) in
        rw (← q.0, ← q.1, append.cons c h' (" " ++ t'))
          (ap (λ (u : String). c ∷ u) (append-partition_blank s h' t' n))
  ]
]

-- And the part before a blank, if it has none itself, comes back from `partition`.
pub partition_blank-append :
    (h t : String) → partition_blank h ≡ none → partition_blank (h ++ (" " ++ t)) ≡ some (h, t)
unfolding partition_blank
partition_blank-append [] t e = rw (append.nil (" " ++ t), append-blank t)
partition_blank-append (c ∷ h) t e = elim (Bool-cases (code c == 32)) [
  | inl b ↦ absurd (ground (arith, e, b))
  | inr b ↦ elim (Option-cases (partition_blank h)) [
    | inl n ↦
        rw (append.cons c h (" " ++ t))
          (partition_blank_step c (h ++ (" " ++ t)) b ∙ (rw (partition_blank-append h t n)))
    | inr ((h', t'), n) ↦ absurd (ground (arith, e, b, n))
  ]
]

lstrip_solid : (c : Char) (s : String) → is_space (code c) ≡ false → lstrip (c ∷ s) ≡ c ∷ s
unfolding lstrip
lstrip_solid c s h = rw h

rstrip_solid : (c : Char) (s : String) → is_space (code c) ≡ false → rstrip (c ∷ s) ≡ c ∷ rstrip s
unfolding rstrip
rstrip_solid c s h = rw h

cons_not_empty : (c : Char) (s : String) → str_eq (c ∷ s) "" ≡ false
cons_not_empty c s = rw (compare.cons-nil c s)

-- A text that begins with a character that is no space is not blank.
pub strip-not_blank :
    (c : Char) (s : String) → is_space (code c) ≡ false → str_eq (strip (c ∷ s)) "" ≡ false
strip-not_blank c s h =
    rw (strip_lem (c ∷ s), lstrip_solid c s h, rstrip_solid c s h) (cons_not_empty c (rstrip s))
  where
    strip_lem : (u : String) → strip u ≡ rstrip (lstrip u)
    strip_lem u = unfold strip in refl

pub has_prefix-not_blank :
    (p : Char) (ps s : String) → has_prefix (p ∷ ps) s ≡ true → str_eq s "" ≡ false
unfolding has_prefix
has_prefix-not_blank p ps [] h = cc
has_prefix-not_blank p ps (c ∷ s) h = cons_not_empty c s
