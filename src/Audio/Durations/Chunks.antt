-- ===== src/Audio/Durations/Chunks.antt =====
-- pkg/parser/audio/duration_formats.go: the durations of WAV and AIFF files, whose chunks are walked.
use go_toolkit.Prelude.{
  ℕ, zero, suc, ◌+◌, ◌*◌, ◌/◌, ◌%◌, min, true, false, not, ◌&&◌, ◌||◌, Option, none, some, [], ◌∷◌,
  ltb, leb, ◌==◌, if◌then◌else◌, Bytes, length,
}
use go_toolkit.Prelude.Int.{sub_ℕ}
use go_toolkit.Prelude.Panic.{Run, done, panic, ◌>>=◌, checked_slice, index}
use go_toolkit.Fetcher.Resource.{Resource}
use go_toolkit.Audio.Durations.Decoding.{Floats, equal_bytes, be_at, le_at, read_range}

unfoldable pub riff_limit : ℕ → ℕ → ℕ
riff_limit declared size =
    let end = declared + 8 in if leb 12 end && ltb end size then end else size

-- a sample count or a size that is -1 in the code is `none`
pub record Wav : Type 0 where
  pub byte_rate : ℕ
  pub sample_rate : ℕ
  pub channels : ℕ
  pub bits_per_sample : ℕ
  pub data_size : Option ℕ
  pub fact_samples : Option ℕ

abbrev pub empty_wav : Wav
empty_wav = record {
  byte_rate = 0;
  sample_rate = 0;
  channels = 0;
  bits_per_sample = 0;
  data_size = none;
  fact_samples = none;
}

-- `next` of both walks: a chunk of odd size has a pad byte
unfoldable pub next_chunk : ℕ → ℕ → ℕ
next_chunk body size = body + size + (if size % 2 == 1 then 1 else 0)

abbrev pub text_fmt : Bytes
text_fmt = b'f' ∷ b'm' ∷ b't' ∷ b' ' ∷ []

abbrev pub text_fact : Bytes
text_fact = b'f' ∷ b'a' ∷ b'c' ∷ b't' ∷ []

abbrev pub text_data : Bytes
text_data = b'd' ∷ b'a' ∷ b't' ∷ b'a' ∷ []

abbrev pub text_riff : Bytes
text_riff = b'R' ∷ b'I' ∷ b'F' ∷ b'F' ∷ []

abbrev pub text_wave : Bytes
text_wave = b'W' ∷ b'A' ∷ b'V' ∷ b'E' ∷ []

abbrev pub text_form : Bytes
text_form = b'F' ∷ b'O' ∷ b'R' ∷ b'M' ∷ []

abbrev pub text_aiff : Bytes
text_aiff = b'A' ∷ b'I' ∷ b'F' ∷ b'F' ∷ []

abbrev pub text_aifc : Bytes
text_aifc = b'A' ∷ b'I' ∷ b'F' ∷ b'C' ∷ []

abbrev pub text_comm : Bytes
text_comm = b'C' ∷ b'O' ∷ b'M' ∷ b'M' ∷ []

-- the cases of the switch on the id
unfoldable pub wav_fmt : Bytes → Wav → Run Wav
wav_fmt body w = if ltb (length body) 16 then done w else do
  channels ← le_at body 2 4
  sample_rate ← le_at body 4 8
  byte_rate ← le_at body 8 12
  bits ← le_at body 14 16
  done (record w {
    channels = channels;
    sample_rate = sample_rate;
    byte_rate = byte_rate;
    bits_per_sample = bits;
  })

unfoldable pub wav_fact : Bytes → Wav → Run Wav
wav_fact body w =
    if ltb (length body) 4
    then done w
    else (le_at body 0 4 >>= λ samples. done (record w { fact_samples = some samples }))

unfoldable pub wav_chunk : Resource → Bytes → ℕ → ℕ → Wav → Run Wav
wav_chunk r id size body w =
    if equal_bytes id text_fmt
    then wav_fmt (read_range r body (min size 16)) w
    else if equal_bytes id text_fact
    then wav_fact (read_range r body 4) w
    else if equal_bytes id text_data
    then done (record w { data_size = some size })
    else done w

-- the loop, with fuel for its rounds
unfoldable pub wav_loop : ℕ → Resource → ℕ → ℕ → Wav → Run Wav
wav_loop zero r limit offset w = panic
wav_loop (suc fuel) r limit offset w =
    elim (leb (offset + 8) limit && leb 8 (length (read_range r offset 8))) [
      | false ↦ done w
      | true ↦ do
        let header = read_range r offset 8
        id ← checked_slice header 0 4
        size ← le_at header 4 8
        w' ← wav_chunk r id size (offset + 8) w
        let next = next_chunk (offset + 8) size
        elim (leb next offset) [ true ↦ done w' | false ↦ wav_loop fuel r limit next w' ]
    ]

abbrev pub or_zero : Option ℕ → ℕ
or_zero none = 0
or_zero (some n) = n

module _ {F : Type 0} (floats : Floats F) where
  -- the three ways to the duration, in their order
  unfoldable pub wav_seconds : Wav → F
  wav_seconds w =
      let f = floats.from_ℕ in
      let samples = or_zero w.fact_samples in
      let size = or_zero w.data_size in
      let computed =
        floats.over
          (floats.times (floats.times (f w.sample_rate) (f w.channels)) (f w.bits_per_sample))
          (f 8) in
      if ltb 0 samples && ltb 0 w.sample_rate
      then floats.over (f samples) (f w.sample_rate)
      else if ltb 0 size && ltb 0 w.byte_rate
      then floats.over (f size) (f w.byte_rate)
      else if ltb 0 size
          && ltb 0 w.sample_rate
          && ltb 0 w.channels
          && ltb 0 w.bits_per_sample
          && floats.below (f 0) computed
      then floats.over (f size) computed
      else f 0

  unfoldable pub probe_wav_duration : Resource → ℕ → Run F
  probe_wav_duration r size =
      let header = read_range r 0 12 in
      if ltb (length header) 12 then done (floats.from_ℕ 0) else do
        riff ← checked_slice header 0 4
        wave ← checked_slice header 8 12
        declared ← le_at header 4 8
        if not (equal_bytes riff text_riff) || not (equal_bytes wave text_wave)
            then done (floats.from_ℕ 0)
            else do
              let limit = riff_limit declared size
              w ← wav_loop (suc limit) r limit 12 empty_wav
              done (wav_seconds w)

  unfoldable pub decode_extended_float : Bytes → Run F
  decode_extended_float b = if ltb (length b) 10 then done (floats.from_ℕ 0) else do
    b0 ← index b 0
    b1 ← index b 1
    mantissa ← be_at b 2 10
    let one = floats.from_ℕ 1
    let sign = if b0 / 128 % 2 == 1 then floats.negate one else one
    let exponent = b0 % 128 * 256 + b1
    done (
        if exponent == 0 && mantissa == 0
        then floats.from_ℕ 0
        else floats.times (floats.times sign (floats.from_ℕ mantissa))
            (floats.power_of_two (sub_ℕ exponent 16446)))

  unfoldable pub aiff_comm : Bytes → Run F
  aiff_comm body = if ltb (length body) 18 then done (floats.from_ℕ 0) else do
    frames ← be_at body 2 6
    bits ← checked_slice body 8 18
    rate ← decode_extended_float bits
    done (
        if ltb 0 frames && floats.below (floats.from_ℕ 0) rate
        then floats.over (floats.from_ℕ frames) rate
        else floats.from_ℕ 0)

  unfoldable pub aiff_loop : ℕ → Resource → ℕ → ℕ → Run F
  aiff_loop zero r limit offset = panic
  aiff_loop (suc fuel) r limit offset =
      elim (leb (offset + 8) limit && leb 8 (length (read_range r offset 8))) [
        | false ↦ done (floats.from_ℕ 0)
        | true ↦ do
          let header = read_range r offset 8
          id ← checked_slice header 0 4
          size ← be_at header 4 8
          let next = next_chunk (offset + 8) size
          elim (equal_bytes id text_comm) [
            | true ↦ aiff_comm (read_range r (offset + 8) 18)
            | false ↦ elim (leb next offset) [
              | true ↦ done (floats.from_ℕ 0)
              | false ↦ aiff_loop fuel r limit next
            ]
          ]
      ]

  unfoldable pub probe_aiff_duration : Resource → ℕ → Run F
  probe_aiff_duration r size =
      let header = read_range r 0 12 in
      if ltb (length header) 12 then done (floats.from_ℕ 0) else do
        outer ← checked_slice header 0 4
        inner ← checked_slice header 8 12
        declared ← be_at header 4 8
        if not (equal_bytes outer text_form)
              || not (equal_bytes inner text_aiff || equal_bytes inner text_aifc)
            then done (floats.from_ℕ 0)
            else aiff_loop (suc (riff_limit declared size)) r (riff_limit declared size) 12
