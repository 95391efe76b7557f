-- ===== src/Converse/Stream/Invariant.antt =====
-- The invariant of the decoder, and the changes of its state that preserve it.
use claude_code_proxy.Prelude.{
  ℕ, zero, suc, ◌<◌, String, Option, none, some, List, [], ◌∷◌, ◌++◌, length, ◌≡◌, refl, ap, ◌⊎◌,
  inl, inr, arith, Bool-cases, Option-cases, In, here, there, some_inj,
}
use claude_code_proxy.Prelude.Int.{ℤ}
use claude_code_proxy.Json.{Value}
use claude_code_proxy.Exec.{Exec, Result, ok, raised, ◌>>=◌, pure, lift, continue}
use claude_code_proxy.Converse.Response.{Usage}
use claude_code_proxy.Converse.Stream.{
  Decoder, eq_ℤ, put, extend, set_block_type, open_thinking, set_thinking, set_pending, set_usage,
  add_thinking, add_thinking_to,
}

-- The two records hold the same texts, and every position of a block is one of them.
pub record IsWellFormed (d : Decoder) : Type 0 where
  pub agree : d.thinking_blocks ≡ d.provider_reasoning
  pub in_range :
      (i : ℤ) (p : ℕ) → In (i, p) d.thinking_block_positions → p < length d.thinking_blocks

-- An action after which a decoder is well-formed if it was before, even when it raises.
pub record Preserves {A : Type 0} (m : Exec Decoder A) : Type 0 where
  pub run : (d : Decoder) → IsWellFormed d → IsWellFormed (m d).1

pub pure-Preserves : {A : Type 0} (a : A) → Preserves (pure a)
pure-Preserves a = record { run = λ d w. w }

module _ {A B : Type 0} where
  pub bind-Preserves :
      (m : Exec Decoder A) (f : A → Exec Decoder B)
      → Preserves m
      → ((a : A) → Preserves (f a))
      → Preserves (m >>= f)
  bind-Preserves m f h k = record { run = λ d i. continued (m d) (h.run d i) }
    where
      continued : (r : Result A × Decoder) → IsWellFormed r.1 → IsWellFormed (continue r f).1
      continued (ok a, d') w = (k a).run d' w
      continued (raised e, d') w = w

  pub then-Preserves :
      (r : Result A) (f : A → Exec Decoder B)
      → ((a : A) → Preserves (f a))
      → Preserves (lift r >>= f)
  then-Preserves r f k = bind-Preserves (lift r) f (record { run = λ d i. i }) k

pub set_block_type-Preserves : (i : ℤ) (t : String) → Preserves (set_block_type i t)
unfolding set_block_type
set_block_type-Preserves i t = record {
  run = λ d w. record { agree = w.agree; in_range = w.in_range };
}

pub set_pending-Preserves : (v : Value) → Preserves (set_pending v)
unfolding set_pending
set_pending-Preserves v = record { run = λ d w. record { agree = w.agree; in_range = w.in_range } }

pub set_usage-Preserves : (u : Usage) → Preserves (set_usage u)
unfolding set_usage
set_usage-Preserves u = record { run = λ d w. record { agree = w.agree; in_range = w.in_range } }

split : {A : Type 0} {a x : A} {xs : List A} → In a (x ∷ xs) → (a ≡ x) ⊎ In a xs
split (here e) = inl e
split (there h) = inr h

added : (k j : ℤ) (n p : ℕ) (m : List (ℤ × ℕ)) → In (j, p) ((k, n) ∷ m) → (p ≡ n) ⊎ In (j, p) m
added k j n p m (here e) = inl (ap (λ (z : ℤ × ℕ). z.1) e)
added k j n p m (there h) = inr h

In-put : (k j : ℤ) (n p : ℕ) (m : List (ℤ × ℕ)) → In (j, p) (put k n m) → (p ≡ n) ⊎ In (j, p) m
unfolding put
In-put k j n p [] h = added k j n p [] h
In-put k j n p ((i, w) ∷ m) h = elim (Bool-cases (eq_ℤ i k)) [
  | inl e ↦ elim (added k j n p m (rw e at h)) [ inl q ↦ inl q | inr q ↦ inr (there q) ]
  | inr e ↦ elim (split (rw e at h)) [
    | inl q ↦ inr (here q)
    | inr q ↦ elim (In-put k j n p m q) [ inl q ↦ inl q | inr q ↦ inr (there q) ]
  ]
]

length-push : (xs : List String) (t : String) → length (xs ++ (t ∷ [])) ≡ suc (length xs)
length-push [] t = refl
length-push (x ∷ xs) t = rw (length-push xs t) refl

length-extend :
    (p : ℕ) (t : String) (xs ys : List String) → extend p t xs ≡ some ys → length ys ≡ length xs
unfolding extend
length-extend p t [] ys h = cc h
length-extend zero t (x ∷ xs) ys h = rw (← some_inj h) refl
length-extend (suc p) t (x ∷ xs) ys h = elim (Option-cases (extend p t xs)) [
  | inl e ↦ cc (rw e at h)
  | inr (zs, e) ↦ rw (← some_inj (rw e at h)) (ap suc (length-extend p t xs zs e))
]

pub open_thinking-Preserves : (i : ℤ) → Preserves (open_thinking i)
unfolding open_thinking
open_thinking-Preserves i = record {
  run = λ d w. record {
    agree = ap (λ xs. xs ++ ("" ∷ [])) w.agree;
    in_range = λ j p h. rw (length-push d.thinking_blocks "") (elim (In-put i j _ p _ h) [
      | inl e ↦ rw e (omega arith)
      | inr e ↦ let q = w.in_range j p e in omega arith
    ]);
  };
}

add_thinking_to_preserves :
    (d : Decoder) (o o' : Option (List String))
    → IsWellFormed d
    → o ≡ o'
    → ((xs : List String) → o ≡ some xs → length xs ≡ length d.thinking_blocks)
    → IsWellFormed (add_thinking_to o o' d).1
unfolding add_thinking_to set_thinking
add_thinking_to_preserves d none none w e h = w
add_thinking_to_preserves d none (some ys) w e h = w
add_thinking_to_preserves d (some xs) none w e h = w
add_thinking_to_preserves d (some xs) (some ys) w e h = record {
  agree = some_inj e;
  in_range = λ i q m. rw (h xs refl) (w.in_range i q m);
}

pub add_thinking-Preserves : (p : ℕ) (t : String) → Preserves (add_thinking p t)
unfolding add_thinking
add_thinking-Preserves p t = record {
  run = λ d w.
      add_thinking_to_preserves d (extend p t d.thinking_blocks) (extend p t d.provider_reasoning) w
        (ap (extend p t) w.agree) (length-extend p t d.thinking_blocks);
}

pub open_thinking-IsWellFormed :
    (i : ℤ) (d : Decoder) → IsWellFormed d → IsWellFormed (open_thinking i d).1
open_thinking-IsWellFormed i d w = (open_thinking-Preserves i).run d w
