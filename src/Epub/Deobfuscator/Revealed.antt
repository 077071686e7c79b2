-- ===== src/Epub/Deobfuscator/Revealed.antt =====
-- pkg/parser/epub/deobfuscator.go: the content that a deobfuscating resource stands for.
use Prim.Native.Nat.{bit_xor}
use go_toolkit.Prelude.{
  ℕ, zero, suc, ◌+◌, ◌-◌, ◌%◌, ◌≤◌, ◌<◌, ◌≡◌, refl, sym, ap, ◌∙◌, inl, inr, min, true, false, [],
  ◌∷◌, ◌++◌, ltb, leb, ◌==◌, if◌then◌else◌, Bytes, length, get_or, take, drop, slice, All,
  All-get_or, le→ltb, lt→ltb, leb→le, arith, Bool-cases, test_below, below_elim,
}
use go_toolkit.Prelude.Panic.{done, ◌>>=◌}
use go_toolkit.Epub.Deobfuscator.{xor_bytes, deobfuscate_font}

-- Byte number p is combined with the byte of the key that is due there, if p is below the length
-- that is obfuscated; the first byte of the list has number `at`.
unfoldable pub reveal : Bytes → ℕ → ℕ → Bytes → Bytes
reveal key n at [] = []
reveal key n at (b ∷ bs) =
    (if ltb at n then bit_xor b (get_or key (at % length key) 0) else b) ∷ reveal key n (suc at) bs

pub reveal_past : (key : Bytes) (n at : ℕ) (bs : Bytes) → n ≤ at → reveal key n at bs ≡ bs
unfolding reveal
reveal_past key n at [] h = refl
reveal_past key n at (b ∷ bs) h =
    rw (le→ltb at n h, reveal_past key n (suc at) bs (omega arith)) refl

xor_bytes-reveal :
    (key : Bytes) (n at k : ℕ) (bs : Bytes)
    → 0 < length key
    → k ≡ min (n - at) (length bs)
    → xor_bytes key at k bs ≡ done (reveal key n at bs)
unfolding xor_bytes reveal
xor_bytes-reveal key n at zero [] p e = refl
xor_bytes-reveal key n at zero (b ∷ bs) p e =
    ap done (sym (reveal_past key n at (b ∷ bs) (omega arith)))
xor_bytes-reveal key n at (suc k) [] p e = absurd (omega arith)
xor_bytes-reveal key n at (suc k) (b ∷ bs) p e =
    let some_key : (length key == 0) ≡ false = ground arith in
    let inside = lt→ltb at n (omega arith) in
    rw (some_key, inside, xor_bytes-reveal key n (suc at) k bs p (omega arith)) refl

-- For a key that is not empty deobfuscateFont does not panic, and it combines each byte with the key
-- by the number that the byte has in the whole content, up to the obfuscated length.
pub deobfuscate_font-reveal :
    (key : Bytes) (n start : ℕ) (bs : Bytes)
    → 0 < length key
    → deobfuscate_font bs start key n ≡ done (reveal key n start bs)
unfolding deobfuscate_font
deobfuscate_font-reveal key n start bs p = elim (Bool-cases (leb n start)) [
  | inl past ↦ rw past (ap done (sym (reveal_past key n start bs (leb→le _ _ past))))
  | inr part ↦ rw part (xor_bytes-reveal key n start _ bs p refl)
]

pub length-reveal : (key : Bytes) (n at : ℕ) (bs : Bytes) → length (reveal key n at bs) ≡ length bs
unfolding reveal
length-reveal key n at [] = refl
length-reveal key n at (b ∷ bs) = ap suc (length-reveal key n (suc at) bs)

pub take-reveal :
    (key : Bytes) (n at k : ℕ) (bs : Bytes)
    → take k (reveal key n at bs) ≡ reveal key n at (take k bs)
unfolding reveal
take-reveal key n at zero bs = refl
take-reveal key n at (suc k) [] = refl
take-reveal key n at (suc k) (b ∷ bs) = rw (take-reveal key n (suc at) k bs) refl

drop-reveal :
    (key : Bytes) (n at k : ℕ) (bs : Bytes)
    → drop k (reveal key n at bs) ≡ reveal key n (at + k) (drop k bs)
unfolding reveal
drop-reveal key n at zero bs = ap (λ j. reveal key n j bs) (omega arith)
drop-reveal key n at (suc k) [] = refl
drop-reveal key n at (suc k) (b ∷ bs) =
    drop-reveal key n (suc at) k bs ∙ ap (λ j. reveal key n j (drop k bs)) (omega arith)

-- Revealing commutes with taking a slice.
pub slice-reveal :
    (key : Bytes) (n lo hi : ℕ) (bs : Bytes)
    → slice (reveal key n 0 bs) lo hi ≡ reveal key n lo (slice bs lo hi)
unfolding slice
slice-reveal key n lo hi bs =
    ap (take (hi - lo))
      (drop-reveal key n 0 lo bs ∙ ap (λ j. reveal key n j (drop lo bs)) (omega arith))
    ∙ take-reveal key n lo (hi - lo) (drop lo bs)

pub append-reveal :
    (key : Bytes) (n at : ℕ) (xs ys : Bytes)
    → n ≤ at + length xs
    → reveal key n at (xs ++ ys) ≡ reveal key n at xs ++ ys
unfolding reveal
append-reveal key n at [] ys h = reveal_past key n at ys (omega arith)
append-reveal key n at (x ∷ xs) ys h = rw (append-reveal key n (suc at) xs ys (omega arith)) refl

xor_table : test_below 256 (λ y. test_below 256 (λ x. bit_xor (bit_xor x y) y == x)) ≡ true
unfolding test_below
xor_table = refl

xor_twice : (x y : ℕ) → x < 256 → y < 256 → bit_xor (bit_xor x y) y ≡ x
xor_twice x y hx hy =
    let row =
      below_elim 256 (λ k. test_below 256 (λ j. bit_xor (bit_xor j k) k == j)) y xor_table hy in
    let same = below_elim 256 (λ j. bit_xor (bit_xor j y) y == j) x row hx in ground (arith, same)

reveal-reveal :
    (key : Bytes) (n at : ℕ) (bs : Bytes)
    → All (λ k. k < 256) key
    → All (λ b. b < 256) bs
    → reveal key n at (reveal key n at bs) ≡ bs
unfolding reveal
reveal-reveal key n at [] hk hb = refl
reveal-reveal key n at (b ∷ bs) hk (h, hb) = elim (Bool-cases (ltb at n)) [
  | inr plain ↦ rw (plain, reveal-reveal key n (suc at) bs hk hb) refl
  | inl hidden ↦
      let due = All-get_or (λ k. k < 256) key (at % length key) 0 hk (omega arith) in
      rw (hidden, reveal-reveal key n (suc at) bs hk hb, xor_twice b _ h due) refl
]

-- For a key that is not empty, deobfuscateFont is its own inverse on byte strings: what reveals a font
-- also hides it.
pub deobfuscate_font-deobfuscate_font :
    (key : Bytes) (n start : ℕ) (bs : Bytes)
    → 0 < length key
    → All (λ k. k < 256) key
    → All (λ b. b < 256) bs
    → (deobfuscate_font bs start key n >>= λ hidden. deobfuscate_font hidden start key n) ≡ done bs
deobfuscate_font-deobfuscate_font key n start bs p hk hb =
    rw (deobfuscate_font-reveal key n start bs p) (
      deobfuscate_font-reveal key n start (reveal key n start bs) p
      ∙ ap done (reveal-reveal key n start bs hk hb))
