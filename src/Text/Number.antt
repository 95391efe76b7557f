-- ===== src/Text/Number.antt =====
-- int(s), for a text: blanks around it, a sign, decimal digits with single underscores between
-- them; anything else is the ValueError, `none`. Only ASCII digits are read.
use Prim.Native.String.{[], ◌∷◌}
use claude_code_proxy.Prelude.{
  ℕ, ◌+◌, ◌-◌, ◌*◌, code, String, Bool, true, false, ◌&&◌, Option, none, some, leb, ◌==◌,
  if◌then◌else◌,
}
use claude_code_proxy.Prelude.Int.{ℤ, pos, negate}
use claude_code_proxy.Text.{strip}

abbrev is_digit : ℕ → Bool
is_digit c = leb 48 c && leb c 57

-- `after_digit` says that the character before was a digit.
digits : ℕ → Bool → String → Option ℕ
digits n after_digit [] = if after_digit then some n else none
digits n after_digit (c ∷ s) = elim (is_digit (code c)) [
  | true ↦ digits (n * 10 + (code c - 48)) true s
  | false ↦ elim ((code c == 95) && after_digit) [ true ↦ digits n false s | false ↦ none ]
]

abbrev positive : Option ℕ → Option ℤ
positive none = none
positive (some n) = some (pos n)

abbrev negative : Option ℕ → Option ℤ
negative none = none
negative (some n) = some (negate n)

signed : String → Option ℤ
unfolding digits
signed [] = none
signed (c ∷ s) =
    if code c == 45
    then negative (digits 0 false s)
    else if code c == 43
    then positive (digits 0 false s)
    else positive (digits 0 false (c ∷ s))

unfoldable pub int_of_text : String → Option ℤ
unfolding signed strip
int_of_text s = signed (strip s)
