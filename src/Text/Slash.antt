-- ===== src/Text/Slash.antt =====
-- What stands behind the last slash of a text, apart from the function that looks for it.
use Prim.Native.String.{[], ◌∷◌, ◌++◌}
use Prim.Native.String.append
use mathlib.Core.Path.{subst}
use text.Mathlib.TextEquality.{Char-path}
use claude_code_proxy.Prelude.{
  String, Char, code, Bool, false, Option, none, some, any, ◌==◌, if◌then◌else◌, ◌≡◌, ◌⊎◌, refl,
  sym, ap, ◌∙◌, arith, Bool-cases, Option-cases, some_inj, inl, inr,
}
use claude_code_proxy.Text.{codes, last_slash, after_last_slash}

abbrev slash : Char
slash = "/"

abbrev has_slash : String → Bool
has_slash s = any (λ c. c == 47) (codes s)

-- A part without a slash: the whole text, or what stands behind a slash of it.
pub record IsLastPart (s part : String) : Type 0 where
  pub no_slash : has_slash part ≡ false
  pub whole : (s ≡ part) ⊎ ((path : String) × (s ≡ path ++ ("/" ++ part)))

append-slash : (t : String) → "/" ++ t ≡ slash ∷ t
append-slash t = append.cons slash [] t ∙ ap (λ (u : String). slash ∷ u) (append.nil t)

last_slash-none : (s : String) → last_slash s ≡ none → has_slash s ≡ false
unfolding last_slash
last_slash-none [] h = refl
last_slash-none (c ∷ s) h = elim (Option-cases (last_slash s)) [
  | inr (t, e) ↦ cc (rw e at h)
  | inl e ↦ ground (arith, h, e, last_slash-none s e)
]

last_slash_plain : (s : String) → has_slash s ≡ false → last_slash s ≡ none
unfolding last_slash
last_slash_plain [] h = refl
last_slash_plain (c ∷ s) h = ground (arith, last_slash_plain s)

last_slash-some :
    (s part : String)
    → last_slash s ≡ some part
    → (has_slash part ≡ false) × ((path : String) × (s ≡ path ++ ("/" ++ part)))
unfolding last_slash
last_slash-some [] part h = cc h
last_slash-some (c ∷ s) part h = elim (Option-cases (last_slash s)) [
  | inr (t, e) ↦
      let (clear, (path, q)) = last_slash-some s part (e ∙ (rw e at h)) in
      (clear, (c ∷ path, ap (λ (u : String). c ∷ u) q ∙ sym (append.cons c path ("/" ++ part))))
  | inl e ↦ elim (Bool-cases (code c == 47)) [
    | inr b ↦ cc (rw (e, b) at h)
    | inl b ↦
        let q = some_inj (rw (e, b) at h) in
        let is_slash : c ≡ slash = Char-path c slash (ground (arith, b)) in
        (
          rw (← q) (last_slash-none s e),
          ([], rw (← q, is_slash) (sym (append.nil ("/" ++ s) ∙ append-slash s))),
        )
  ]
]

last_slash-append :
    (path part : String) → has_slash part ≡ false → last_slash (path ++ ("/" ++ part)) ≡ some part
unfolding last_slash
last_slash-append [] part h =
    rw (append.nil ("/" ++ part), append-slash part) (rw (last_slash_plain part h) refl)
last_slash-append (c ∷ path) part h =
    rw (append.cons c path ("/" ++ part))
      (next (last_slash (path ++ ("/" ++ part))) (last_slash-append path part h))
  where
    next :
        (o : Option String)
        → o ≡ some part
        → (elim o [
          | none ↦ if code c == 47 then some (path ++ ("/" ++ part)) else none
          | some t ↦ some t
        ])
          ≡ some part
    next none e = cc e
    next (some t) e = e

after_last_slash_of :
    (s : String) (o : Option String)
    → last_slash s ≡ o
    → after_last_slash s ≡ (elim o [ none ↦ s | some t ↦ t ])
unfolding after_last_slash
after_last_slash_of s o e = ap (λ x. elim x [ none ↦ s | some t ↦ t ]) e

pub after_last_slash-IsLastPart : (s : String) → IsLastPart s (after_last_slash s)
after_last_slash-IsLastPart s = elim (Option-cases (last_slash s)) [
  | inl e ↦
      subst (IsLastPart s) (sym (after_last_slash_of s none e))
        (record { no_slash = last_slash-none s e; whole = inl refl })
  | inr (t, e) ↦
      let (clear, at) = last_slash-some s t e in
      subst (IsLastPart s) (sym (after_last_slash_of s (some t) e))
        (record { no_slash = clear; whole = inr at })
]

pub after_last_slash_unique : (s part : String) → IsLastPart s part → after_last_slash s ≡ part
after_last_slash_unique s part i = elim i.whole [
  | inl e ↦ ap after_last_slash e ∙ after_last_slash_of part none (last_slash_plain part i.no_slash)
  | inr (path, e) ↦
      ap after_last_slash e
      ∙ after_last_slash_of (path ++ ("/" ++ part)) (some part)
          (last_slash-append path part i.no_slash)
]
