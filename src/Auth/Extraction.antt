-- ===== src/Auth/Extraction.antt =====
-- Which headers carry a virtual key.
use Prim.Native.String.{◌++◌}
use Prim.Native.String.append
use claude_code_proxy.Prelude.{
  String, true, false, none, some, ◌≡◌, ◌↔◌, refl, ap, ◌∙◌, inl, inr, arith, str_eq, str_eq_iff,
  Bool-cases, Option-cases,
}
use claude_code_proxy.Exec.{ok}
use claude_code_proxy.Text.{strip, partition_blank, has_prefix, is_space}
use claude_code_proxy.Text.Laws.{
  append-partition_blank, partition_blank-append, strip-not_blank, has_prefix-not_blank,
}
use claude_code_proxy.Keys.{virtual_key_prefix}
use claude_code_proxy.Auth.{extract_virtual_key, of_parts, is_blank}

-- A header `Bearer`, one blank, and a token that is `key` once it is stripped.
abbrev pub Carries : String → String → Type 0
Carries header key =
    (token : String) × (header ≡ "Bearer" ++ (" " ++ token))
    × (strip token ≡ key)
    × (has_prefix virtual_key_prefix key ≡ true)

bearer_not_blank : (s : String) → is_blank ("Bearer" ++ s) ≡ false
unfolding is_space
bearer_not_blank s = rw (append.cons "B" "earer" s) (strip-not_blank "B" ("earer" ++ s) refl)

bearer_no_blank : partition_blank "Bearer" ≡ none
unfolding partition_blank
bearer_no_blank = refl

of_parts_accepts :
    (rid token : String)
    → has_prefix virtual_key_prefix (strip token) ≡ true
    → of_parts rid (some ("Bearer", token)) ≡ ok (strip token)
of_parts_accepts rid token h = rw (has_prefix-not_blank "v" "k_" (strip token) h) (rw h)

of_parts_accepted :
    (rid scheme token key : String)
    → of_parts rid (some (scheme, token)) ≡ ok key
    → (scheme ≡ "Bearer") × (strip token ≡ key) × (has_prefix virtual_key_prefix key ≡ true)
of_parts_accepted rid scheme token key h = elim (Bool-cases (str_eq scheme "Bearer")) [
  | inr e ↦ absurd (ground (arith, h, e))
  | inl e ↦ elim (Bool-cases (is_blank token)) [
    | inl b ↦ absurd (ground (arith, h, e, b))
    | inr b ↦ elim (Bool-cases (has_prefix virtual_key_prefix (strip token))) [
      | inr p ↦ absurd (ground (arith, h, e, b, p))
      | inl p ↦
          let q : strip token ≡ key = ground (arith, h, e, b, p) in
          ((str_eq_iff scheme "Bearer").0 e, q, rw (← q) p)
    ]
  ]
]

-- A key is extracted from a header exactly when the header carries it: `Bearer`, a blank, and a token
-- that gives the key once stripped, which begins with `vk_`.
pub extract_virtual_key-Carries :
    (header rid key : String)
    → (extract_virtual_key (some header) rid ≡ ok key) ↔ Carries header key
unfolding extract_virtual_key
extract_virtual_key-Carries header rid key = (into, back)
  where
    into : extract_virtual_key (some header) rid ≡ ok key → Carries header key
    into h = elim (Bool-cases (is_blank header)) [
      | inl b ↦ absurd (ground (arith, h, b))
      | inr b ↦ elim (Option-cases (partition_blank header)) [
        | inl n ↦ absurd (ground (arith, h, b, n))
        | inr ((scheme, token), n) ↦
            let (e, s, p) = of_parts_accepted rid scheme token key (ground (arith, h, b, n)) in
            (token, append-partition_blank header scheme token n ∙ rw e, s, p)
      ]
    ]

    back : Carries header key → extract_virtual_key (some header) rid ≡ ok key
    back (token, e, s, p) =
        rw
          (
            e,
            bearer_not_blank (" " ++ token),
            partition_blank-append "Bearer" token bearer_no_blank,
          )
          (of_parts_accepts rid token (rw s p) ∙ ap ok s)
