-- ===== src/Audio/Durations/Flac.antt =====
-- pkg/parser/audio/duration_formats.go: the duration of a FLAC stream.
use go_toolkit.Prelude.{
  ℕ, ◌+◌, ◌*◌, ◌/◌, ◌%◌, not, ◌||◌, [], ◌∷◌, ltb, ◌==◌, if◌then◌else◌, Bytes, length,
}
use go_toolkit.Prelude.Panic.{Run, done, ◌>>=◌, checked_slice, index}
use go_toolkit.Fetcher.Resource.{Resource}
use go_toolkit.Audio.Durations.Decoding.{Floats, equal_bytes, read_range, skip_id3v2}

abbrev pub flac_magic : Bytes
flac_magic = b'f' ∷ b'L' ∷ b'a' ∷ b'C' ∷ []

-- 20 bits from byte 10 of STREAMINFO
unfoldable pub flac_sample_rate : Bytes → Run ℕ
flac_sample_rate si = do
  b10 ← index si 10
  b11 ← index si 11
  b12 ← index si 12
  done (b10 * 4096 + b11 * 16 + b12 / 16)

-- 36 bits from the middle of byte 13
unfoldable pub flac_total_samples : Bytes → Run ℕ
flac_total_samples si = do
  b13 ← index si 13
  b14 ← index si 14
  b15 ← index si 15
  b16 ← index si 16
  b17 ← index si 17
  done (b13 % 16 * 4294967296 + b14 * 16777216 + b15 * 65536 + b16 * 256 + b17)

module _ {F : Type 0} (floats : Floats F) where
  unfoldable pub flac_stream_info : Bytes → Run F
  flac_stream_info si = do
    sample_rate ← flac_sample_rate si
    total_samples ← flac_total_samples si
    done (
        if sample_rate == 0 || total_samples == 0
        then floats.from_ℕ 0
        else floats.over (floats.from_ℕ total_samples) (floats.from_ℕ sample_rate))

  unfoldable pub flac_block : Bytes → Run F
  flac_block block = if ltb (length block) 38 then done (floats.from_ℕ 0) else do
    kind ← index block 0
    if not (kind % 128 == 0)
        then done (floats.from_ℕ 0)
        else (checked_slice block 4 (length block) >>= λ si. flac_stream_info si)

  unfoldable pub probe_flac_duration : Resource → Run F
  probe_flac_duration r = do
    base ← skip_id3v2 r
    if not (equal_bytes (read_range r base 4) flac_magic)
        then done (floats.from_ℕ 0)
        else flac_block (read_range r (base + 4) 38)
