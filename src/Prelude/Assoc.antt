-- ===== src/Prelude/Assoc.antt =====
-- Python's dict with texts for keys, as an association list in the order of insertion.
use mathlib.Core.Option.{Option, none, some}
use text.Mathlib.TextEquality.{eq_iff}
use Prim.Native.String.{String}
use native.Mathlib.Omega.{arith}
use mathlib.Core.Path.{◌≡◌, refl}
use text.Mathlib.TextPositions.{eq_refl}
use text.Mathlib.Text.{◌==◌}
use claude_code_proxy.Prelude.Tests.{if◌then◌else◌}
use mathlib.Core.List.{List, [], ◌∷◌}

abbrev pub Dict {ℓ} : Type ℓ → Type ℓ
Dict V = List (String × V)

module _ {ℓ} {V : Type ℓ} where
  -- d.get(key)
  unfoldable pub lookup : String → Dict V → Option V
  lookup key [] = none
  lookup key ((name, value) ∷ rest) = if name == key then some value else lookup key rest

  -- d[key] = new: a key that is there keeps its place
  unfoldable pub insert : String → V → Dict V → Dict V
  insert key new [] = (key, new) ∷ []
  insert key new ((name, old) ∷ rest) =
      if name == key then (name, new) ∷ rest else (name, old) ∷ insert key new rest

  -- d.pop(key, None)
  unfoldable pub remove : String → Dict V → Dict V
  remove key [] = []
  remove key ((name, value) ∷ rest) =
      let kept = remove key rest in if name == key then kept else (name, value) ∷ kept

  pub lookup-insert :
      (key asked : String) (new : V) (d : Dict V)
      → lookup asked (insert key new d) ≡ (if key == asked then some new else lookup asked d)
  unfolding lookup insert
  lookup-insert key asked new [] = refl
  lookup-insert key asked new ((name, old) ∷ rest) =
      let tail = lookup-insert key asked new rest in
      ground (arith, tail, eq_iff name key, eq_iff key asked, eq_iff name asked)

  pub lookup-insert_self :
      (key : String) (new : V) (d : Dict V) → lookup key (insert key new d) ≡ some new
  lookup-insert_self key new d = rw (lookup-insert key key new d, eq_refl key)

  pub lookup-remove :
      (key asked : String) (d : Dict V)
      → lookup asked (remove key d) ≡ (if key == asked then none else lookup asked d)
  unfolding lookup remove
  lookup-remove key asked [] = ground arith
  lookup-remove key asked ((name, old) ∷ rest) =
      let tail = lookup-remove key asked rest in
      ground (arith, tail, eq_iff name key, eq_iff key asked, eq_iff name asked)
