-- ===== src/Audio/Durations/Totality/Mp3Frames.antt =====
-- pkg/parser/audio/duration_formats.go: the header that probeMP3Duration finds, and what follows it.
use go_toolkit.Prelude.{
  ℕ, zero, suc, ◌+◌, ◌/◌, ◌%◌, ◌≤◌, ◌<◌, ◌≡◌, refl, ap, ◌∙◌, inl, inr, Bool, true, false, not, ◌&&◌,
  ◌||◌, Option, none, some, ltb, leb, ◌==◌, Bytes, length, slice, length-slice, get_or-slice,
  get_or, arith, Bool-cases, test_below, below_elim, leb→le,
}
use go_toolkit.Prelude.Panic.{Run, done, panic, Ends, Ends-bind, checked_slice-done}
use go_toolkit.Audio.Durations.Decoding.{entry, index-done}
use go_toolkit.Audio.Durations.Mp3.{
  version_bits, layer_bits, bitrate_index, sample_index, is_reserved, parse_mp3_header,
  find_mp3_frame, mp3_bitrates, mp3_bitrate, mp3_sample_rate,
}

parse_mp3_header-done :
    (b : Bytes)
    → 4 ≤ length b
    → parse_mp3_header b
      ≡ done (
          get_or b 0 0 == 255
          && get_or b 1 0 / 32 % 8 == 7
          && not (is_reserved (get_or b 1 0) (get_or b 2 0)))
unfolding parse_mp3_header
parse_mp3_header-done b h =
    let long : ltb (length b) 4 ≡ false = ground arith in
    rw
      (
        long,
        index-done b 0 (omega arith),
        index-done b 1 (omega arith),
        index-done b 2 (omega arith),
      )
      refl

-- A header that is found lies in the window, begins with the sync word and is not reserved.
abbrev pub IsFrameStart : Bytes → Option ℕ → Type 0
IsFrameStart window none = Unit
IsFrameStart window (some i) =
    (i + 4 ≤ length window)
    × (get_or window i 0 ≡ 255)
    × (get_or window (i + 1) 0 / 32 % 8 ≡ 7)
    × (is_reserved (get_or window (i + 1) 0) (get_or window (i + 2) 0) ≡ false)

parsed_at :
    (window : Bytes) (i : ℕ)
    → i + 4 ≤ length window
    → parse_mp3_header (slice window i (i + 4))
      ≡ done (
          get_or window i 0 == 255
          && get_or window (i + 1) 0 / 32 % 8 == 7
          && not (is_reserved (get_or window (i + 1) 0) (get_or window (i + 2) 0)))
parsed_at window i h =
    let b = slice window i (i + 4) in
    let e0 : get_or b 0 0 ≡ get_or window i 0 =
      get_or-slice window i (i + 4) 0 0 (omega arith) ∙ ap (λ k. get_or window k 0) (omega arith) in
    let e1 = get_or-slice window i (i + 4) 1 0 (omega arith) in
    let e2 = get_or-slice window i (i + 4) 2 0 (omega arith) in
    rw (parse_mp3_header-done b (omega (arith, length-slice window i (i + 4))), e0, e1, e2) refl

pub find_mp3_frame-IsFrameStart :
    (fuel : ℕ) (window : Bytes) (i : ℕ)
    → 0 < fuel
    → length window < i + fuel
    → Ends (IsFrameStart window) (find_mp3_frame fuel window i)
unfolding find_mp3_frame
find_mp3_frame-IsFrameStart zero window i p h = absurd (omega arith)
find_mp3_frame-IsFrameStart (suc fuel) window i p h =
    elim (Bool-cases (leb (i + 4) (length window))) [
      | inr over ↦ rw (over, find_mp3_frame) tt
      | inl more ↦
          let inside = leb→le (i + 4) (length window) more in
          let b0 = get_or window i 0 in
          let b1 = get_or window (i + 1) 0 in
          let b2 = get_or window (i + 2) 0 in
          let valid = b0 == 255 && b1 / 32 % 8 == 7 && not (is_reserved b1 b2) in
          rw
            (
              more,
              find_mp3_frame,
              index-done window i (omega arith),
              index-done window (i + 1) (omega arith),
              checked_slice-done window i (i + 4) (omega arith) inside,
            )
            (Ends-bind (λ v. v ≡ valid) (IsFrameStart window)
              (parse_mp3_header (slice window i (i + 4))) _ (rw (parsed_at window i inside) refl)
              (λ v e. elim (Bool-cases (b0 == 255 && b1 / 32 % 8 == 7 && v)) [
                | inl found ↦
                    let reserved : not (is_reserved b1 b2) ≡ true = ground (arith, found, e) in
                    rw found (
                      inside,
                      ground (arith, found),
                      ground (arith, found),
                      ground (arith, reserved),
                    )
                | inr next ↦
                    rw next
                      (find_mp3_frame-IsFrameStart fuel window (i + 1) (omega arith) (omega arith))
              ]))
    ]

abbrev is_positive : Run ℕ → Bool
is_positive panic = false
is_positive (done n) = ltb 0 n

positive-Ends : (r : Run ℕ) → is_positive r ≡ true → Ends (λ n. 0 < n) r
positive-Ends panic h = absurd (ground (arith, h))
positive-Ends (done n) h = ground (arith, h)

rate_table :
    test_below 4 (λ v. test_below 4 (λ s. v == 1 || s == 3 || is_positive (mp3_sample_rate v s)))
    ≡ true
unfolding test_below mp3_sample_rate entry
rate_table = refl

bitrate_table :
    test_below 4 (λ v.
      test_below 4
        (λ l. test_below 16 (λ i. l == 0 || i == 0 || i == 15 || is_positive (mp3_bitrate v l i))))
    ≡ true
unfolding test_below mp3_bitrate mp3_bitrates entry
bitrate_table = refl

-- For the bytes of a header that is not reserved the lookups of the sample rate and of the bitrate
-- stay within their tables, and what they return is positive.
pub header_rates-positive :
    (b1 b2 : ℕ)
    → is_reserved b1 b2 ≡ false
    → Ends (λ n. 0 < n) (mp3_sample_rate (version_bits b1) (sample_index b2))
      × Ends (λ n. 0 < n) (mp3_bitrate (version_bits b1) (layer_bits b1) (bitrate_index b2))
unfolding is_reserved
header_rates-positive b1 b2 h =
    let v = version_bits b1 in
    let l = layer_bits b1 in
    let i = bitrate_index b2 in
    let s = sample_index b2 in
    let row =
      below_elim 4 (λ v. test_below 4 (λ s. v == 1 || s == 3 || is_positive (mp3_sample_rate v s)))
        v rate_table (omega arith) in
    let cell =
      below_elim 4 (λ s. v == 1 || s == 3 || is_positive (mp3_sample_rate v s)) s row
        (omega arith) in
    let plane =
      below_elim 4
        (λ v. test_below 4 (λ l.
          test_below 16 (λ i. l == 0 || i == 0 || i == 15 || is_positive (mp3_bitrate v l i))))
        v bitrate_table (omega arith) in
    let line =
      below_elim 4
        (λ l. test_below 16 (λ i. l == 0 || i == 0 || i == 15 || is_positive (mp3_bitrate v l i))) l
        plane (omega arith) in
    let field =
      below_elim 16 (λ i. l == 0 || i == 0 || i == 15 || is_positive (mp3_bitrate v l i)) i line
        (omega arith) in
    (
      positive-Ends (mp3_sample_rate v s) (ground (arith, cell, h)),
      positive-Ends (mp3_bitrate v l i) (ground (arith, field, h)),
    )
