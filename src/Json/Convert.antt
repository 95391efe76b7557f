-- ===== src/Json/Convert.antt =====
-- `int(x)` and `d[k]`, with the exceptions that they raise.
use claude_code_proxy.Prelude.{String, true, false, Option, none, some, Dict, lookup}
use claude_code_proxy.Prelude.Int.{ℤ, pos}
use claude_code_proxy.Json.{Value, bool, int, real, text, Truncated, finite, infinite, not_a_number}
use claude_code_proxy.Exec.{Result, ok, raised, other}
use claude_code_proxy.Text.Number.{int_of_text}

abbrev int_of_real : Truncated → Result ℤ
int_of_real (finite n) = ok n
int_of_real infinite = raised (other "OverflowError")
int_of_real not_a_number = raised (other "ValueError")

unfoldable pub int_of_value : Value → Result ℤ
int_of_value (bool true) = ok (pos 1)
int_of_value (bool false) = ok (pos 0)
int_of_value (int n) = ok n
int_of_value (real r) = int_of_real r.truncated
int_of_value (text s) = elim (int_of_text s) [ none ↦ raised (other "ValueError") | some n ↦ ok n ]
int_of_value v = raised (other "TypeError")

-- d[k], for a dict of the program and for one inside a JSON value
abbrev pub or_key_error {ℓ} : {A : Type ℓ} → Option A → Result A
or_key_error none = raised (other "KeyError")
or_key_error (some v) = ok v

abbrev pub item_of {ℓ} : {A : Type ℓ} → String → Dict A → Result A
item_of k d = or_key_error (lookup k d)
