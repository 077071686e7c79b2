-- ===== src/Audio/Durations/EbmlSizes.antt =====
-- pkg/parser/audio/duration_formats.go: the sizes that ebmlReadSize returns.
use go_toolkit.Prelude.{
  ℕ, zero, suc, ◌+◌, ◌-◌, ◌*◌, ◌%◌, ◌≤◌, ◌<◌, ◌≡◌, refl, inl, inr, Bool, true, ◌&&◌, ◌||◌, [], ◌∷◌,
  ltb, leb, ◌==◌, Bytes, length, length-take, ap, slice, take, All, All-take, arith, Bool-cases,
  test_below, below_elim,
}
use go_toolkit.Prelude.Panic.{Ends, checked_slice-done}
use go_toolkit.Audio.Durations.Webm.{mask_loop, shift_in, ebml_read_size}

-- `m` times 256, `k` times
abbrev scale : ℕ → ℕ → ℕ
scale m zero = m
scale m (suc k) = scale (m * 256) k

shift_in_below :
    (v m : ℕ) (bs : Bytes) → All (λ b. b < 256) bs → v < m → shift_in v bs < scale m (length bs)
unfolding shift_in
shift_in_below v m [] hb h = h
shift_in_below v m (b ∷ bs) (h0, hb) h =
    shift_in_below (v * 256 % 18446744073709551616 + b) (m * 256) bs hb (omega arith)

-- for every first byte: the marker leaves a mask, and the mask and the bytes behind it hold 56 bits
abbrev marks : ℕ → Bool
marks b =
    b == 0
    || (ltb 0 (mask_loop 8 b 128 1).1
        && ltb 0 (mask_loop 8 b 128 1).0
        && leb (mask_loop 8 b 128 1).0 8
        && leb (scale (mask_loop 8 b 128 1).1 ((mask_loop 8 b 128 1).0 - 1)) 72057594037927936)

marker_table : test_below 256 marks ≡ true
unfolding test_below mask_loop
marker_table = refl

mod_below : (a m : ℕ) → 0 < m → a % m < m
mod_below a m h = omega arith

-- A size that ebmlReadSize returns is below 2^56, and its length is at most 8 and lies within the
-- bytes; it does not panic.
pub ebml_read_size-bounded :
    (bs : Bytes)
    → All (λ b. b < 256) bs
    → Ends (λ x. (x.0 < 72057594037927936) × (x.1 ≤ 8) × (x.1 ≤ length bs)) (ebml_read_size bs)
unfolding ebml_read_size slice
ebml_read_size-bounded [] hb = (omega arith, omega arith, omega arith)
ebml_read_size-bounded (b0 ∷ bs) (h0, hb) =
    let size = (mask_loop 8 b0 128 1).0 in
    let mask = (mask_loop 8 b0 128 1).1 in
    elim (Bool-cases (b0 == 0 || ltb 8 size || ltb (length (b0 ∷ bs)) size)) [
      | inl bad ↦ rw bad (omega arith, omega arith, omega arith)
      | inr good ↦
          let marker = below_elim 256 marks b0 marker_table h0 in
          let fits : size ≤ length (b0 ∷ bs) = ground (arith, good) in
          let short : size ≤ 8 = ground (arith, good) in
          let one : 1 ≤ size = ground (arith, good, marker) in
          let some_mask : 0 < mask = ground (arith, good, marker) in
          let room : scale mask (size - 1) ≤ 72057594037927936 = ground (arith, good, marker) in
          let tail = take (size - 1) bs in
          let below =
            shift_in_below (b0 % mask) mask tail (All-take (λ b. b < 256) (size - 1) bs hb)
              (mod_below b0 mask some_mask) in
          let long : length tail ≡ size - 1 = omega (arith, length-take (size - 1) bs) in
          rw (good, checked_slice-done (b0 ∷ bs) 1 size one fits)
            (ground (arith, below, ap (scale mask) long, room), short, fits)
    ]
