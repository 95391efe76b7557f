-- ===== src/Text/Print.antt =====
-- str(n), for a natural number: its decimal digits.
use Prim.Native.String.{◌++◌}
use claude_code_proxy.Prelude.{
  ◌≡◌, refl, ℕ, zero, suc, ◌/◌, ◌%◌, String, true, false, List, [], ◌∷◌, ltb,
}

nth : List String → ℕ → String
nth [] n = ""
nth (d ∷ ds) zero = d
nth (d ∷ ds) (suc n) = nth ds n

digit : ℕ → String
unfolding nth
digit n = nth ("0" ∷ "1" ∷ "2" ∷ "3" ∷ "4" ∷ "5" ∷ "6" ∷ "7" ∷ "8" ∷ "9" ∷ []) n

-- A number has no more digits than its value, so `n` is fuel enough.
decimals : ℕ → ℕ → String
unfolding digit
decimals zero n = digit n
decimals (suc fuel) n = elim (ltb n 10) [
  | true ↦ digit n
  | false ↦ decimals fuel (n / 10) ++ digit (n % 10)
]

unfoldable pub text_of_nat : ℕ → String
unfolding decimals
text_of_nat n = decimals n n

text_of_nat_404 : text_of_nat 404 ≡ "404"
unfolding text_of_nat
text_of_nat_404 = refl
