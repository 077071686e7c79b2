-- ===== src/Extensions/Escape/Safe.antt =====
-- pkg/internal/extensions/escape.go: what escape writes. Its two fast paths give what the general
-- loop gives, the buffer is filled exactly, and the output holds no byte that must be escaped.
use go_toolkit.Prelude.{
  ℕ, ◌+◌, ◌*◌, ◌/◌, ◌%◌, ◌<◌, ◌≡◌, ◌⊎◌, inl, inr, refl, sym, true, false, not, ◌&&◌, [], ◌∷◌, ◌==◌,
  if◌then◌else◌, Bytes, length, length-append, get_or, arith, Bool-cases, All, All-append,
  test_below, below_elim,
}
use go_toolkit.Extensions.Escape.{
  Encoding, is_query, should_escape, is_alphanum, space_count, hex_count, plus_spaces, escape_byte,
  escape_loop, escape, upperhex,
}

space_escapes : (mode : Encoding) → should_escape b' ' mode ≡ true
unfolding should_escape
space_escapes mode = ground arith

no_escapes-escape_loop :
    (mode : Encoding) (s : Bytes)
    → space_count mode s ≡ 0
    → hex_count mode s ≡ 0
    → escape_loop mode s ≡ s
unfolding space_count hex_count escape_loop escape_byte
no_escapes-escape_loop mode [] p q = refl
no_escapes-escape_loop mode (c ∷ s) p q =
    ground (arith, space_escapes mode, no_escapes-escape_loop mode s)

plus_spaces-escape_loop :
    (mode : Encoding) (s : Bytes) → hex_count mode s ≡ 0 → plus_spaces s ≡ escape_loop mode s
unfolding hex_count escape_loop escape_byte plus_spaces
plus_spaces-escape_loop mode [] q = refl
plus_spaces-escape_loop mode (c ∷ s) q =
    ground (arith, space_escapes mode, plus_spaces-escape_loop mode s)

length-escape_byte :
    (mode : Encoding) (c : ℕ)
    → length (escape_byte mode c)
      ≡ 1 + (if should_escape c mode && not (c == b' ' && is_query mode) then 2 else 0)
unfolding escape_byte
length-escape_byte mode c = ground (arith)

length-escape_loop :
    (mode : Encoding) (s : Bytes) → length (escape_loop mode s) ≡ length s + 2 * hex_count mode s
unfolding hex_count escape_loop
length-escape_loop mode [] = omega arith
length-escape_loop mode (c ∷ s) = ground (
  arith,
  length-escape_byte mode c,
  length-append (escape_byte mode c) (escape_loop mode s),
  length-escape_loop mode s,
)

-- The fast paths of escape, for no byte to escape and for spaces only, give what the general loop
-- gives.
pub escape-escape_loop : (s : Bytes) (mode : Encoding) → escape s mode ≡ escape_loop mode s
unfolding escape
escape-escape_loop s mode = elim (Bool-cases (hex_count mode s == 0)) [
  | inl no_hex ↦
      let z : hex_count mode s ≡ 0 = ground arith in
      elim (Bool-cases (space_count mode s == 0)) [
        | inl no_space ↦
            rw (no_hex, no_space) (sym (no_escapes-escape_loop mode s (ground arith) z))
        | inr space ↦ rw (no_hex, space) (plus_spaces-escape_loop mode s z)
      ]
  | inr hex ↦ ground arith
]

-- The output is as long as the buffer that escape allocates: two bytes more for each escape.
length-escape :
    (s : Bytes) (mode : Encoding) → length (escape s mode) ≡ length s + 2 * hex_count mode s
length-escape s mode = rw escape-escape_loop (length-escape_loop mode s)

-- "%", or a byte that need not be escaped
abbrev IsSafe : Encoding → ℕ → Type 0
IsSafe mode c = (c ≡ b'%') ⊎ (should_escape c mode ≡ false)

alphanum_table : test_below 16 (λ d. is_alphanum (get_or upperhex d 0)) ≡ true
unfolding test_below
alphanum_table = refl

upperhex-IsSafe : (mode : Encoding) (d : ℕ) → d < 16 → IsSafe mode (get_or upperhex d 0)
unfolding should_escape
upperhex-IsSafe mode d h =
    let digit = below_elim 16 (λ k. is_alphanum (get_or upperhex k 0)) d alphanum_table h in
    inr (rw (should_escape, digit))

escape_byte-IsSafe : (mode : Encoding) (c : ℕ) → c < 256 → All (IsSafe mode) (escape_byte mode c)
unfolding escape_byte
escape_byte-IsSafe mode c h = elim (Bool-cases (c == b' ' && is_query mode)) [
  | inl space ↦ rw space (inr (unfold should_escape in ground arith), tt)
  | inr other ↦ elim (Bool-cases (should_escape c mode)) [
    | inl unsafe ↦
        rw (other, unsafe)
          (
            inl refl,
            (
              upperhex-IsSafe mode (c / 16) (omega arith),
              (upperhex-IsSafe mode (c % 16) (omega arith), tt),
            ),
          )
    | inr safe ↦ rw (other, safe) (inr safe, tt)
  ]
]

escape_loop-IsSafe :
    (mode : Encoding) (s : Bytes) → All (λ c. c < 256) s → All (IsSafe mode) (escape_loop mode s)
unfolding escape_loop
escape_loop-IsSafe mode [] h = tt
escape_loop-IsSafe mode (c ∷ s) (h, hs) =
    All-append (IsSafe mode) (escape_byte mode c) (escape_loop mode s) (escape_byte-IsSafe mode c h)
      (escape_loop-IsSafe mode s hs)

-- The output of escape on a byte string holds "%" and bytes that need not be escaped, and no
-- others.
escape-IsSafe :
    (s : Bytes) (mode : Encoding) → All (λ c. c < 256) s → All (IsSafe mode) (escape s mode)
escape-IsSafe s mode h = rw escape-escape_loop (escape_loop-IsSafe mode s h)
