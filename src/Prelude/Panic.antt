-- ===== src/Prelude/Panic.antt =====
-- How a Go call ends: it returns a value or it panics at run time.
use Prim.Native.Nat.{ℕ, zero, suc, ◌-◌, ◌≤◌, ◌<◌}
use mathlib.Core.Path.{◌≡◌, refl, sym, subst}
use mathlib.Core.Bool.{◌||◌}
use mathlib.Core.List.{List, [], ◌∷◌}
use mathlib.Core.Option.{none, some}
use native.Mathlib.Omega.{arith}
use go_toolkit.Prelude.Tests.{ltb, if◌then◌else◌}
use go_toolkit.Prelude.Lists.{length, get_elem?, All}
use go_toolkit.Prelude.Slices.{Bytes, slice}

pub data Run {ℓ} (A : Type ℓ) : Type ℓ where
  done : A → Run A
  panic : Run A

infixl 5 ◌>>=◌
abbrev pub ◌>>=◌ {ℓ κ} : {A : Type ℓ} {B : Type κ} → Run A → (A → Run B) → Run B
done a >>= f = f a
panic >>= f = panic

-- `xs[lo:hi]` and `xs[i]` with their run-time checks
unfoldable pub checked_slice : Bytes → ℕ → ℕ → Run Bytes
checked_slice xs lo hi = if ltb hi lo || ltb (length xs) hi then panic else done (slice xs lo hi)

unfoldable pub index : List ℕ → ℕ → Run ℕ
index xs i = elim (get_elem? xs i) [ some x ↦ done x | none ↦ panic ]

-- `xs[i-1]`, which panics also for i = 0
unfoldable pub index_before : List ℕ → ℕ → Run ℕ
index_before xs zero = panic
index_before xs (suc i) = index xs i

pub checked_slice-done :
    (xs : Bytes) (lo hi : ℕ)
    → lo ≤ hi
    → hi ≤ length xs
    → checked_slice xs lo hi ≡ done (slice xs lo hi)
unfolding checked_slice
checked_slice-done xs lo hi h k = ground arith

-- The call returns, and what it returns satisfies `P`.
abbrev pub Ends {ℓ} : {A : Type ℓ} → (A → Type 0) → Run A → Type 0
Ends P (done a) = P a
Ends P panic = ⊥

pub Ends-bind {ℓ ℓ'} :
    {A : Type ℓ} {B : Type ℓ'} (P : A → Type 0) (Q : B → Type 0) (r : Run A) (f : A → Run B)
    → Ends P r
    → ((a : A) → P a → Ends Q (f a))
    → Ends Q (r >>= f)
Ends-bind P Q (done a) f h k = k a h
Ends-bind P Q panic f h k = absurd h

pub Ends-map {ℓ} :
    {A : Type ℓ} (P Q : A → Type 0) (r : Run A) → Ends P r → ((a : A) → P a → Q a) → Ends Q r
Ends-map P Q (done a) h k = k a h
Ends-map P Q panic h k = absurd h

pub index-Ends :
    (P : ℕ → Type 0) (xs : List ℕ) (i : ℕ) → All P xs → i < length xs → Ends P (index xs i)
unfolding index
index-Ends P [] i h lt = absurd (omega arith)
index-Ends P (x ∷ xs) zero (hx, hs) lt = hx
index-Ends P (x ∷ xs) (suc i) (hx, hs) lt = index-Ends P xs i hs (omega arith)

-- the value stands in the list at the index
abbrev pub StandsAt : (ℕ → Type 0) → List ℕ → ℕ → ℕ → Type 0
StandsAt P xs i v = P v × (get_elem? xs i ≡ some v)

pub index-StandsAt :
    (P : ℕ → Type 0) (xs : List ℕ) (i : ℕ)
    → All P xs
    → i < length xs
    → Ends (StandsAt P xs i) (index xs i)
unfolding index
index-StandsAt P [] i h lt = absurd (omega arith)
index-StandsAt P (x ∷ xs) zero (hx, hs) lt = (hx, refl)
index-StandsAt P (x ∷ xs) (suc i) (hx, hs) lt = index-StandsAt P xs i hs (omega arith)

pub index_before-StandsAt :
    (P : ℕ → Type 0) (xs : List ℕ) (i : ℕ)
    → All P xs
    → 0 < i
    → i ≤ length xs
    → Ends (StandsAt P xs (i - 1)) (index_before xs i)
unfolding index_before
index_before-StandsAt P xs zero h p k = absurd (omega arith)
index_before-StandsAt P xs (suc i) h p k =
    let same : suc i - 1 ≡ i = omega arith in rw same (index-StandsAt P xs i h (omega arith))

pub checked_slice-Ends :
    (xs : Bytes) (lo hi : ℕ)
    → lo ≤ hi
    → hi ≤ length xs
    → Ends (λ s. s ≡ slice xs lo hi) (checked_slice xs lo hi)
checked_slice-Ends xs lo hi h k =
    subst (Ends (λ s. s ≡ slice xs lo hi)) (sym (checked_slice-done xs lo hi h k)) refl
