-- ===== src/Audio/Durations/AdtsStream.antt =====
-- pkg/parser/audio/duration_formats.go: a raw AAC stream as its format lays it out, which is counted.
use go_toolkit.Prelude.{
  ℕ, ◌+◌, ◌*◌, ◌/◌, ◌%◌, ◌≤◌, ◌<◌, ◌≡◌, refl, sym, ap, ◌∙◌, true, ◌&&◌, List, [], ◌∷◌, ◌++◌, ltb,
  ◌==◌, Bytes, length, get_or, get_or-drop, drop, arith, test_below, below_elim,
}
use go_toolkit.Prelude.Panic.{done}
use go_toolkit.Audio.Durations.Decoding.{index-done}
use go_toolkit.Audio.Durations.Aac.{FrameHeader, aac_sample_rates, frame_header}

-- An ADTS frame: the rest of the sync bytes, the profile, the index of the rate, the fields between
-- it and the length, those behind the length, and the number of raw blocks less 1.
pub record AdtsFrame : Type 0 where
  pub kind : ℕ
  pub profile : ℕ
  pub rate_index : ℕ
  pub mode : ℕ
  pub flags : ℕ
  pub fullness_high : ℕ
  pub fullness_low : ℕ
  pub more_blocks : ℕ
  pub payload : Bytes

-- The fields fit their bits, and the rate is not a reserved one.
pub record IsAdts (f : AdtsFrame) : Type 0 where
  pub kind_bits : f.kind < 16
  pub profile_bits : f.profile < 4
  pub rate_range : f.rate_index < 13
  pub mode_bits : f.mode < 4
  pub flag_bits : f.flags < 64
  pub high_bits : f.fullness_high < 32
  pub block_bits : f.more_blocks < 4
  pub length_bits : length f.payload + 7 < 8192

unfoldable pub frame_bytes : AdtsFrame → Bytes
frame_bytes f =
    let n = length f.payload + 7 in
    255
    ∷ (240 + f.kind)
    ∷ (f.profile * 64 + f.rate_index * 4 + f.mode)
    ∷ (f.flags * 4 + n / 2048)
    ∷ (n / 8 % 256)
    ∷ (n % 8 * 32 + f.fullness_high)
    ∷ (f.fullness_low * 4 + f.more_blocks)
    ∷ f.payload

abbrev pub adts_stream : List AdtsFrame → Bytes
adts_stream [] = []
adts_stream (f ∷ fs) = frame_bytes f ++ adts_stream fs

-- 1024 for each raw block
abbrev pub samples : List AdtsFrame → ℕ
samples [] = 0
samples (f ∷ fs) = 1024 * (f.more_blocks + 1) + samples fs

abbrev pub frame_rate : AdtsFrame → ℕ
frame_rate f = get_or aac_sample_rates f.rate_index 0

rate_table : test_below 13 (λ i. ltb 0 (get_or aac_sample_rates i 0)) ≡ true
unfolding test_below
rate_table = refl

pub frame_rate_positive : (f : AdtsFrame) → IsAdts f → 0 < frame_rate f
frame_rate_positive f fits =
    let positive =
      below_elim 13 (λ i. ltb 0 (get_or aac_sample_rates i 0)) f.rate_index rate_table
        fits.rate_range in
    ground (arith, positive)

pub length-frame_bytes : (f : AdtsFrame) → length (frame_bytes f) ≡ length f.payload + 7
unfolding frame_bytes
length-frame_bytes f = omega arith

abbrev pub header_of : AdtsFrame → FrameHeader
header_of f = record {
  synced = true;
  rate = frame_rate f;
  frame_len = length f.payload + 7;
  blocks = f.more_blocks + 1;
}

-- the header of a frame that is followed by anything
pub frame_header-frame_bytes :
    (f : AdtsFrame) (bs rest : Bytes) (pos : ℕ)
    → IsAdts f
    → drop pos bs ≡ frame_bytes f ++ rest
    → pos + 7 ≤ length bs
    → frame_header bs pos ≡ done (header_of f)
unfolding frame_header frame_bytes
frame_header-frame_bytes f bs rest pos fits here long =
    let byte = λ (k : ℕ). sym (get_or-drop pos k bs 0) ∙ ap (λ t. get_or t k 0) here in
    let kb = fits.kind_bits in
    let pb = fits.profile_bits in
    let rb = fits.rate_range in
    let mb = fits.mode_bits in
    let fb = fits.flag_bits in
    let hb = fits.high_bits in
    let bb = fits.block_bits in
    let lb = fits.length_bits in
    let n = length f.payload + 7 in
    let b0 : get_or bs pos 0 ≡ 255 = ap (λ k. get_or bs k 0) (omega arith) ∙ byte 0 in
    let synced : (255 == 255 && (240 + f.kind) / 16 % 16 == 15) ≡ true = ground arith in
    let rate : (f.profile * 64 + f.rate_index * 4 + f.mode) / 4 % 16 ≡ f.rate_index = omega arith in
    let len : (f.flags * 4 + n / 2048) % 4 * 2048
          + n / 8 % 256 * 8
          + (n % 8 * 32 + f.fullness_high) / 32
        ≡ n =
      omega arith in
    let blocks : (f.fullness_low * 4 + f.more_blocks) % 4 ≡ f.more_blocks = omega arith in
    rw
      (
        index-done bs pos (omega arith),
        index-done bs (pos + 1) (omega arith),
        index-done bs (pos + 2) (omega arith),
        index-done bs (pos + 3) (omega arith),
        index-done bs (pos + 4) (omega arith),
        index-done bs (pos + 5) (omega arith),
        index-done bs (pos + 6) (omega arith),
        b0,
        byte 1,
        byte 2,
        byte 3,
        byte 4,
        byte 5,
        byte 6,
        synced,
        rate,
        len,
        blocks,
        index-done aac_sample_rates f.rate_index (omega arith),
      )
      refl
