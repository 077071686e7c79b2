-- ===== src/Audio/Durations/FlacStream.antt =====
-- pkg/parser/audio/duration_formats.go: a FLAC stream as its format lays it out, which is read back.
use go_toolkit.Prelude.{
  ℕ, ◌+◌, ◌*◌, ◌/◌, ◌%◌, ◌≤◌, ◌<◌, ◌≡◌, refl, sym, false, not, ◌||◌, ◌∷◌, ◌++◌, ◌==◌, Bytes, length,
  take, take-append, slice, slice-clip, arith, le→ltb,
}
use go_toolkit.Prelude.Panic.{done, checked_slice-done, index}
use go_toolkit.Fetcher.Resource.{Resource, ok, range}
use go_toolkit.Audio.Durations.Decoding.{Floats, equal_bytes, has_prefix, read_range, skip_id3v2}
use go_toolkit.Audio.Durations.Flac.{
  flac_magic, flac_sample_rate, flac_total_samples, flac_stream_info, flac_block,
  probe_flac_duration,
}

-- The STREAMINFO block; `bits` is the number of bits per sample less 1, `channels` that of the
-- channels less 1.
pub record StreamInfo : Type 0 where
  pub min_block : ℕ
  pub max_block : ℕ
  pub min_frame : ℕ
  pub max_frame : ℕ
  pub sample_rate : ℕ
  pub channels : ℕ
  pub bits : ℕ
  pub total_samples : ℕ
  pub md5 : Bytes

-- The fields fit their bits.
pub record Fits (s : StreamInfo) : Type 0 where
  pub rate_bits : s.sample_rate < 1048576
  pub channel_bits : s.channels < 8
  pub sample_bits : s.bits < 32
  pub total_bits : s.total_samples < 68719476736
  pub md5_bytes : length s.md5 ≡ 16

unfoldable pub stream_info : StreamInfo → Bytes
stream_info s =
    (s.min_block / 256 % 256)
    ∷ (s.min_block % 256)
    ∷ (s.max_block / 256 % 256)
    ∷ (s.max_block % 256)
    ∷ (s.min_frame / 65536 % 256)
    ∷ (s.min_frame / 256 % 256)
    ∷ (s.min_frame % 256)
    ∷ (s.max_frame / 65536 % 256)
    ∷ (s.max_frame / 256 % 256)
    ∷ (s.max_frame % 256)
    ∷ (s.sample_rate / 4096)
    ∷ (s.sample_rate / 16 % 256)
    ∷ (s.sample_rate % 16 * 16 + s.channels * 2 + s.bits / 16)
    ∷ (s.bits % 16 * 16 + s.total_samples / 4294967296)
    ∷ (s.total_samples / 16777216 % 256)
    ∷ (s.total_samples / 65536 % 256)
    ∷ (s.total_samples / 256 % 256)
    ∷ (s.total_samples % 256)
    ∷ s.md5

-- the magic number, the header of the first block, which may be the last one, and the block
unfoldable pub flac_stream : ℕ → StreamInfo → Bytes → Bytes
flac_stream last s rest = flac_magic ++ ((last * 128) ∷ 0 ∷ 0 ∷ 34 ∷ (stream_info s ++ rest))

stream_info_length : (s : StreamInfo) → length s.md5 ≡ 16 → length (stream_info s) ≡ 34
unfolding stream_info
stream_info_length s h = omega arith

take-info :
    (s : StreamInfo) (rest : Bytes)
    → length s.md5 ≡ 16
    → take 34 (stream_info s ++ rest) ≡ stream_info s
take-info s rest h = take-append 34 (stream_info s) rest (sym (stream_info_length s h))

module _ {F : Type 0} (floats : Floats F) where
  stream_info_read :
      (s : StreamInfo)
      → Fits s
      → 0 < s.sample_rate
      → 0 < s.total_samples
      → flac_stream_info floats (stream_info s)
        ≡ done (floats.over (floats.from_ℕ s.total_samples) (floats.from_ℕ s.sample_rate))
  unfolding flac_stream_info flac_sample_rate flac_total_samples index stream_info
  stream_info_read s fits rate_pos total_pos =
      let rb = fits.rate_bits in
      let cb = fits.channel_bits in
      let sb = fits.sample_bits in
      let tb = fits.total_bits in
      let rate : s.sample_rate / 4096 * 4096
            + s.sample_rate / 16 % 256 * 16
            + (s.sample_rate % 16 * 16 + s.channels * 2 + s.bits / 16) / 16
          ≡ s.sample_rate =
        omega arith in
      let total : (s.bits % 16 * 16 + s.total_samples / 4294967296) % 16 * 4294967296
            + s.total_samples / 16777216 % 256 * 16777216
            + s.total_samples / 65536 % 256 * 65536
            + s.total_samples / 256 % 256 * 256
            + s.total_samples % 256
          ≡ s.total_samples =
        omega arith in
      let positive : (s.sample_rate == 0 || s.total_samples == 0) ≡ false = ground arith in
      rw (rate, total, positive) refl

  block_read :
      (last : ℕ) (s : StreamInfo)
      → Fits s
      → 0 < s.sample_rate
      → 0 < s.total_samples
      → flac_block floats ((last * 128) ∷ 0 ∷ 0 ∷ 34 ∷ stream_info s)
        ≡ done (floats.over (floats.from_ℕ s.total_samples) (floats.from_ℕ s.sample_rate))
  unfolding flac_block index
  block_read last s fits rate_pos total_pos =
      let block : Bytes = (last * 128) ∷ 0 ∷ 0 ∷ 34 ∷ stream_info s in
      let long : 38 ≤ length block = omega (arith, stream_info_length s fits.md5_bytes) in
      let is_info : not (last * 128 % 128 == 0) ≡ false = ground arith in
      rw
        (
          le→ltb (length block) 38 long,
          is_info,
          checked_slice-done block 4 (length block) (omega arith) (omega arith),
          slice-clip block 4 (length block) (omega arith),
        )
        (stream_info_read s fits rate_pos total_pos)

  -- FLAC round trip. From a resource that serves every range of a FLAC stream, whose STREAMINFO block
  -- has fields that fit their bits, a rate and a total that are positive, and may be the last block,
  -- the probe returns the total divided by the rate.
  pub flac_stream-probe_flac_duration :
      (last : ℕ) (s : StreamInfo) (rest : Bytes) (r : Resource)
      → Fits s
      → 0 < s.sample_rate
      → 0 < s.total_samples
      → ((start end : ℕ) → r.read start end ≡ ok (range (flac_stream last s rest) start end))
      → probe_flac_duration floats r
        ≡ done (floats.over (floats.from_ℕ s.total_samples) (floats.from_ℕ s.sample_rate))
  unfolding probe_flac_duration skip_id3v2 read_range has_prefix equal_bytes flac_stream slice
      stream_info
  flac_stream-probe_flac_duration last s rest r fits rate_pos total_pos served =
      rw (served 0 9, served 0 3, served 4 41, take-info s rest fits.md5_bytes)
        (block_read last s fits rate_pos total_pos)
