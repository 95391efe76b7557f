-- ===== src/Text.antt =====
-- What the program uses of Python's `str`: `strip`, `partition`, `rsplit`, `startswith`, slices and
-- `int`. A text is walked over its characters; what is walked as numbers goes by `codes`.
pub mod Number
pub mod Print
pub mod Laws
pub mod Slash
use Prim.Native.String.{[], ◌∷◌}
use claude_code_proxy.Prelude.{
  ℕ, suc, zero, Char, code, String, Bool, true, false, ◌||◌, ◌&&◌, Option, none, some, List, leb,
  ◌==◌, if◌then◌else◌,
}
use mathlib.Core.List

abbrev pub codes : String → List ℕ
codes [] = List.[]
codes (c ∷ s) = List.◌∷◌ (code c) (codes s)

-- c.isspace(), for one character
unfoldable pub is_space : ℕ → Bool
is_space c =
    (leb 9 c && leb c 13)
    || (leb 28 c && leb c 32)
    || (c == 133)
    || (c == 160)
    || (c == 5760)
    || (leb 8192 c && leb c 8202)
    || (c == 8232)
    || (c == 8233)
    || (c == 8239)
    || (c == 8287)
    || (c == 12288)

abbrev is_empty : String → Bool
is_empty [] = true
is_empty (c ∷ s) = false

unfoldable pub lstrip : String → String
lstrip [] = []
lstrip (c ∷ s) = let rest = lstrip s in if is_space (code c) then rest else c ∷ s

unfoldable pub rstrip : String → String
rstrip [] = []
rstrip (c ∷ s) = let rest = rstrip s in if is_space (code c) && is_empty rest then [] else c ∷ rest

-- s.strip()
unfoldable pub strip : String → String
unfolding lstrip rstrip
strip s = rstrip (lstrip s)

-- s.partition(" "): `none` where there is no blank
unfoldable pub partition_blank : String → Option (String × String)
partition_blank [] = none
partition_blank (c ∷ s) =
    let rest = partition_blank s in
    if code c == 32
    then some ([], s)
    else elim rest [ none ↦ none | some (head, tail) ↦ some (c ∷ head, tail) ]

-- what stands behind the last slash, if there is one
unfoldable pub last_slash : String → Option String
last_slash [] = none
last_slash (c ∷ s) = elim (last_slash s) [
  | none ↦ if code c == 47 then some s else none
  | some t ↦ some t
]

-- s.rsplit("/", 1)[-1]: the whole text where it has no slash
unfoldable pub after_last_slash : String → String
unfolding last_slash
after_last_slash s = elim (last_slash s) [ none ↦ s | some t ↦ t ]

-- s.startswith(prefix)
unfoldable pub has_prefix : String → String → Bool
has_prefix [] s = true
has_prefix (p ∷ ps) [] = false
has_prefix (p ∷ ps) (c ∷ s) = (code p == code c) && has_prefix ps s

-- s[:n]
unfoldable pub take_chars : ℕ → String → String
take_chars zero s = []
take_chars (suc n) [] = []
take_chars (suc n) (c ∷ s) = c ∷ take_chars n s

-- len(s)
unfoldable pub count_chars : String → ℕ
count_chars [] = 0
count_chars (c ∷ s) = suc (count_chars s)

-- s[n:]
unfoldable pub drop_chars : ℕ → String → String
drop_chars zero s = s
drop_chars (suc n) [] = []
drop_chars (suc n) (c ∷ s) = drop_chars n s

-- `k in s`, for texts
unfoldable pub contains : String → String → Bool
contains k [] = has_prefix k []
contains k (c ∷ s) = let rest = contains k s in has_prefix k (c ∷ s) || rest

-- list(s), for a text
unfoldable pub characters : String → List String
characters [] = List.[]
characters (c ∷ s) = List.◌∷◌ (c ∷ []) (characters s)
