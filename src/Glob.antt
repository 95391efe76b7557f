-- ===== src/Glob.antt =====
-- fnmatch.fnmatchcase of the standard library, which the policy engine and the model resolver call.
-- A pattern is read into tokens, and the tokens are matched against the whole name.
use claude_code_proxy.Prelude.{
  ℕ, zero, suc, String, Bool, true, false, not, ◌&&◌, Option, none, some, List, [], ◌∷◌, leb, ◌==◌,
  if◌then◌else◌, length, any,
}
use claude_code_proxy.Text.{codes}

pub data Token : Type 0 where
  -- `*`, `?`, one character, and `[...]` or `[!...]` with the ranges that it lists
  star single : Token
  literal : ℕ → Token
  one_of : (negated : Bool) → List (ℕ × ℕ) → Token

-- The inside of a bracket, up to the first `]` that is not its first character.
until_bracket : List ℕ → Option (List ℕ)
until_bracket [] = none
until_bracket (c ∷ cs) =
    let rest = until_bracket cs in
    if c == b']' then some [] else elim rest [ none ↦ none | some inside ↦ some (c ∷ inside) ]

after_first : List ℕ → Option (List ℕ)
unfolding until_bracket
after_first [] = none
after_first (c ∷ cs) = elim (until_bracket cs) [ none ↦ none | some inside ↦ some (c ∷ inside) ]

bracket : List ℕ → Option (List ℕ)
unfolding after_first
bracket [] = none
bracket (c ∷ cs) =
    if c == b'!'
    then elim (after_first cs) [ none ↦ none | some inside ↦ some (c ∷ inside) ]
    else after_first (c ∷ cs)

-- `a-z` is a range, also where it is empty; any other character stands for itself.
ranges : List ℕ → List (ℕ × ℕ)
ranges [] = []
ranges (a ∷ []) = (a, a) ∷ []
ranges (a ∷ b ∷ []) = (a, a) ∷ (b, b) ∷ []
ranges (a ∷ b ∷ c ∷ cs) = elim (b == b'-') [
  | true ↦ (a, c) ∷ ranges cs
  | false ↦ (a, a) ∷ ranges (b ∷ c ∷ cs)
]

set_token : List ℕ → Token
unfolding ranges
set_token [] = one_of false []
set_token (c ∷ cs) = if c == b'!' then one_of true (ranges cs) else one_of false (ranges (c ∷ cs))

-- `skip` counts the characters of a bracket that is read already. A `[` that is never closed
-- stands for itself.
tokens_from : ℕ → List ℕ → List Token
unfolding bracket set_token
tokens_from skip [] = []
tokens_from (suc skip) (c ∷ cs) = tokens_from skip cs
tokens_from zero (c ∷ cs) = elim (c == b'*') [
  | true ↦ star ∷ tokens_from 0 cs
  | false ↦ elim (c == b'?') [
    | true ↦ single ∷ tokens_from 0 cs
    | false ↦ elim (c == b'[') [
      | false ↦ literal c ∷ tokens_from 0 cs
      | true ↦ elim (bracket cs) [
        | none ↦ literal c ∷ tokens_from 0 cs
        | some inside ↦ set_token inside ∷ tokens_from (suc (length inside)) cs
      ]
    ]
  ]
]

pub tokens : List ℕ → List Token
unfolding tokens_from
tokens = tokens_from 0

abbrev in_range : ℕ → ℕ × ℕ → Bool
in_range c (lo, hi) = leb lo c && leb c hi

-- One character against a token that is no star.
pub accepts : Token → ℕ → Bool
accepts star c = false
accepts single c = true
accepts (literal d) c = c == d
accepts (one_of false rs) c = any (in_range c) rs
accepts (one_of true rs) c = not (any (in_range c) rs)

pub matches : List Token → List ℕ → Bool
unfolding accepts
matches [] [] = true
matches [] (c ∷ cs) = false
matches (star ∷ ts) [] = matches ts []
matches (star ∷ ts) (c ∷ cs) = elim (matches ts (c ∷ cs)) [
  | true ↦ true
  | false ↦ matches (star ∷ ts) cs
]
matches (t ∷ ts) [] = false
matches (t ∷ ts) (c ∷ cs) = elim (accepts t c) [ true ↦ matches ts cs | false ↦ false ]

-- fnmatchcase(name, pattern)
unfoldable pub fnmatchcase : String → String → Bool
unfolding tokens matches
fnmatchcase name pattern_ = matches (tokens (codes pattern_)) (codes name)
