-- ===== src/Prelude/Assoc.antt =====
-- A Go map with integer keys, as an association list: a write replaces the entry of its key.
use go_toolkit.Prelude.Tests.{◌==◌, if◌then◌else◌}
use Prim.Native.Nat.{ℕ}
use mathlib.Core.Path.{◌≡◌, refl}
use mathlib.Core.List.{List, [], ◌∷◌}
use mathlib.Core.Option.{Option, none, some}
use native.Mathlib.Omega.{arith}

module _ {ℓ} {V : Type ℓ} where
  unfoldable pub lookup : ℕ → List (ℕ × V) → Option V
  lookup key [] = none
  lookup key ((here, value) ∷ rest) = if here == key then some value else lookup key rest

  unfoldable pub insert : ℕ → V → List (ℕ × V) → List (ℕ × V)
  insert key new [] = (key, new) ∷ []
  insert key new ((here, old) ∷ rest) =
      if here == key then (key, new) ∷ rest else (here, old) ∷ insert key new rest

  pub lookup-insert :
      (key other : ℕ) (new : V) (m : List (ℕ × V))
      → lookup other (insert key new m) ≡ (if key == other then some new else lookup other m)
  unfolding lookup insert
  lookup-insert key other new [] = refl
  lookup-insert key other new ((here, old) ∷ rest) =
      ground (arith, lookup-insert key other new rest)
