-- ===== src/Prelude/Slices.antt =====
-- Go's slice expression `xs[lo:hi]`, for `lo <= hi`, and how slices join and nest.
use Prim.Native.Nat.{ℕ, zero, suc, ◌+◌, ◌-◌, ◌≤◌, ◌<◌, min}
use mathlib.Core.Path.{◌≡◌, refl, ap, sym, ◌∙◌}
use mathlib.Core.List.{List, [], ◌∷◌, ◌++◌}
use native.Mathlib.Omega.{arith}
use go_toolkit.Prelude.Lists.{
  length, get_or, get_or-take, get_or-drop, take, drop, length-take, length-drop, drop-all,
  take-all, drop-nil, take-nil,
}

abbrev pub Bytes : Type 0
Bytes = List ℕ

module _ {ℓ} {A : Type ℓ} where
  unfoldable pub slice : List A → ℕ → ℕ → List A
  slice xs lo hi = take (hi - lo) (drop lo xs)

  pub drop-drop : (a b c : ℕ) (xs : List A) → c ≡ a + b → drop b (drop a xs) ≡ drop c xs
  drop-drop zero b c xs e = let e' : b ≡ c = omega arith in rw e'
  drop-drop (suc a) b c [] e = drop-nil b ∙ sym (drop-nil c)
  drop-drop (suc a) b zero (x ∷ xs) e = absurd (omega arith)
  drop-drop (suc a) b (suc c) (x ∷ xs) e = drop-drop a b c xs (omega arith)

  take-append-take :
      (m n k : ℕ) (xs : List A) → k ≡ m + n → take m xs ++ take n (drop m xs) ≡ take k xs
  take-append-take zero n k xs e = let e' : n ≡ k = omega arith in rw e'
  take-append-take (suc m) n zero xs e = absurd (omega arith)
  take-append-take (suc m) n (suc k) [] e = take-nil n
  take-append-take (suc m) n (suc k) (x ∷ xs) e =
      ap (◌∷◌ x) (take-append-take m n k xs (omega arith))

  drop-take : (a b c : ℕ) (xs : List A) → c ≡ b - a → drop a (take b xs) ≡ take c (drop a xs)
  drop-take zero b c xs e = let e' : b ≡ c = omega arith in rw e'
  drop-take (suc a) zero zero xs e = refl
  drop-take (suc a) zero (suc c) xs e = absurd (omega arith)
  drop-take (suc a) (suc b) c [] e = sym (take-nil c)
  drop-take (suc a) (suc b) c (x ∷ xs) e = drop-take a b c xs (omega arith)

  take-take : (m n : ℕ) (xs : List A) → m ≤ n → take m (take n xs) ≡ take m xs
  take-take zero n xs h = refl
  take-take (suc m) zero xs h = absurd (omega arith)
  take-take (suc m) (suc n) [] h = refl
  take-take (suc m) (suc n) (x ∷ xs) h = ap (◌∷◌ x) (take-take m n xs (omega arith))

  pub length-slice :
      (xs : List A) (lo hi : ℕ) → length (slice xs lo hi) ≡ min (hi - lo) (length xs - lo)
  unfolding slice
  length-slice xs lo hi =
      length-take (hi - lo) (drop lo xs) ∙ ap (min (hi - lo)) (length-drop lo xs)

  pub get_or-slice :
      (xs : List A) (lo hi i : ℕ) (d : A)
      → lo + i < hi
      → get_or (slice xs lo hi) i d ≡ get_or xs (lo + i) d
  unfolding slice
  get_or-slice xs lo hi i d h =
      get_or-take (hi - lo) i (drop lo xs) d (omega arith) ∙ get_or-drop lo i xs d

  pub slice-append :
      (xs : List A) (a b c : ℕ) → a ≤ b → b ≤ c → slice xs a b ++ slice xs b c ≡ slice xs a c
  unfolding slice
  slice-append xs a b c h k =
      rw (← drop-drop a (b - a) b xs (omega arith))
        (take-append-take (b - a) (c - b) (c - a) (drop a xs) (omega arith))

  pub slice-slice :
      (xs : List A) (a b lo hi : ℕ)
      → a + hi ≤ b
      → slice (slice xs a b) lo hi ≡ slice xs (a + lo) (a + hi)
  unfolding slice
  slice-slice xs a b lo hi h =
      let same : a + hi - (a + lo) ≡ hi - lo = omega arith in
      rw (drop-take lo (b - a) (b - a - lo) (drop a xs) refl, drop-drop a lo (a + lo) xs refl, same)
        (take-take (hi - lo) (b - a - lo) _ (omega arith))

  pub slice-empty : (xs : List A) (a b : ℕ) → b ≤ a → slice xs a b ≡ []
  unfolding slice
  slice-empty xs a b h = let z : b - a ≡ 0 = omega arith in rw z

  -- past the end a slice, as it is defined here, stops at the end
  pub slice-clip : (xs : List A) (a b : ℕ) → length xs ≤ b → slice xs a b ≡ drop a xs
  unfolding slice
  slice-clip xs a b h = take-all _ _ (omega (arith, length-drop a xs))

  pub slice-past : (xs : List A) (a b : ℕ) → length xs ≤ a → slice xs a b ≡ []
  unfolding slice
  slice-past xs a b h = rw (drop-all a xs h) (take-nil (b - a))

  pub slice-whole : (xs : List A) (b : ℕ) → length xs ≤ b → slice xs 0 b ≡ xs
  slice-whole xs b h = slice-clip xs 0 b h
