-- ===== src/Positions/Locators.antt =====
-- pkg/manifest: the parts of links and locators that the positions services use. A float64 that is
-- a quotient of two integers is kept as these two; hrefs are resolved.
use Prim.Native.String.{String}
use mathlib.Core.Path.{subst}
use go_toolkit.Prelude.{ℕ, suc, ◌+◌, ◌≡◌, Option, some, List, [], ◌∷◌, ◌++◌, length, arith}

pub record Ratio : Type 0 where
  pub num : ℕ
  pub den : ℕ

pub record Link : Type 0 where
  pub href : String
  pub media_type : Option String
  pub title : String

pub record Locator : Type 0 where
  pub href : String
  pub media_type : String
  pub title : String
  pub fragments : List String
  pub progression : Option Ratio
  pub position : Option ℕ
  pub total_progression : Option Ratio

-- the flattening of the groups of a positions service
unfoldable pub flatten : List (List Locator) → List Locator
flatten [] = []
flatten (g ∷ gs) = g ++ flatten gs

-- Position k + 1 at the front, and the following ones behind it.
abbrev pub IsConsecutive : ℕ → List Locator → Type 0
IsConsecutive k [] = Unit
IsConsecutive k (l ∷ ls) = (l.position ≡ some (suc k)) × IsConsecutive (suc k) ls

-- The total progression of the first is k of n, and so on.
abbrev pub IsProgressing : ℕ → ℕ → List Locator → Type 0
IsProgressing k n [] = Unit
IsProgressing k n (l ∷ ls) =
    (l.total_progression ≡ some (record { num = k; den = n })) × IsProgressing (suc k) n ls

-- A list of all the positions: numbered from 1 on, the total progression growing from 0 by equal
-- steps and staying below 1.
abbrev pub IsNumbering : List Locator → Type 0
IsNumbering ls = IsConsecutive 0 ls × IsProgressing 0 (length ls) ls

pub IsConsecutive-append :
    (k : ℕ) (xs ys : List Locator)
    → IsConsecutive k xs
    → IsConsecutive (k + length xs) ys
    → IsConsecutive k (xs ++ ys)
IsConsecutive-append k [] ys hx hy = subst (λ j. IsConsecutive j ys) (omega arith) hy
IsConsecutive-append k (x ∷ xs) ys (hx, hs) hy =
    (hx, IsConsecutive-append (suc k) xs ys hs (subst (λ j. IsConsecutive j ys) (omega arith) hy))
