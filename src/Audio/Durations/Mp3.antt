-- ===== src/Audio/Durations/Mp3.antt =====
-- pkg/parser/audio/duration_formats.go: the duration of an MP3 stream.
use go_toolkit.Prelude.{
  ℕ, zero, suc, ◌+◌, ◌-◌, ◌/◌, ◌%◌, Bool, true, false, not, ◌&&◌, ◌||◌, Option, none, some, List,
  [], ◌∷◌, ltb, leb, ◌==◌, if◌then◌else◌, Bytes, length,
}
use go_toolkit.Prelude.Panic.{Run, done, panic, ◌>>=◌, checked_slice, index}
use go_toolkit.Fetcher.Resource.{Resource}
use go_toolkit.Audio.Durations.Decoding.{Floats, equal_bytes, be_at, entry, read_range, skip_id3v2}

abbrev pub mp3_sample_rates : List (List ℕ)
mp3_sample_rates =
    (11025 ∷ 12000 ∷ 8000 ∷ [])
    ∷ (0 ∷ 0 ∷ 0 ∷ [])
    ∷ (22050 ∷ 24000 ∷ 16000 ∷ [])
    ∷ (44100 ∷ 48000 ∷ 32000 ∷ [])
    ∷ []

-- the map: by the version's bit and the layer
unfoldable pub mp3_bitrates : ℕ → ℕ → Option (List ℕ)
mp3_bitrates version layer =
    if version == 1 && layer == 1
    then some (
        0 ∷ 32 ∷ 64 ∷ 96 ∷ 128 ∷ 160 ∷ 192 ∷ 224 ∷ 256 ∷ 288 ∷ 320 ∷ 352 ∷ 384 ∷ 416 ∷ 448 ∷ 0 ∷ [])
    else if version == 1 && layer == 2
    then some
        (0 ∷ 32 ∷ 48 ∷ 56 ∷ 64 ∷ 80 ∷ 96 ∷ 112 ∷ 128 ∷ 160 ∷ 192 ∷ 224 ∷ 256 ∷ 320 ∷ 384 ∷ 0 ∷ [])
    else if version == 1 && layer == 3
    then some
        (0 ∷ 32 ∷ 40 ∷ 48 ∷ 56 ∷ 64 ∷ 80 ∷ 96 ∷ 112 ∷ 128 ∷ 160 ∷ 192 ∷ 224 ∷ 256 ∷ 320 ∷ 0 ∷ [])
    else if version == 0 && layer == 1
    then some
        (0 ∷ 32 ∷ 48 ∷ 56 ∷ 64 ∷ 80 ∷ 96 ∷ 112 ∷ 128 ∷ 144 ∷ 160 ∷ 176 ∷ 192 ∷ 224 ∷ 256 ∷ 0 ∷ [])
    else if version == 0 && layer == 2
    then some (0 ∷ 8 ∷ 16 ∷ 24 ∷ 32 ∷ 40 ∷ 48 ∷ 56 ∷ 64 ∷ 80 ∷ 96 ∷ 112 ∷ 128 ∷ 144 ∷ 160 ∷ 0 ∷ [])
    else none

-- the fields of a header, by its bytes 1 and 2
abbrev pub version_bits : ℕ → ℕ
version_bits b1 = b1 / 8 % 4

abbrev pub layer_bits : ℕ → ℕ
layer_bits b1 = b1 / 2 % 4

abbrev pub bitrate_index : ℕ → ℕ
bitrate_index b2 = b2 / 16 % 16

abbrev pub sample_index : ℕ → ℕ
sample_index b2 = b2 / 4 % 4

-- the reserved and the invalid combinations
unfoldable pub is_reserved : ℕ → ℕ → Bool
is_reserved b1 b2 =
    version_bits b1 == 1
    || layer_bits b1 == 0
    || bitrate_index b2 == 0
    || bitrate_index b2 == 15
    || sample_index b2 == 3

-- parseMP3Header: whether it returns its argument
unfoldable pub parse_mp3_header : Bytes → Run Bool
parse_mp3_header b = if ltb (length b) 4 then done false else do
  b0 ← index b 0
  b1 ← index b 1
  b2 ← index b 2
  done (b0 == 255 && b1 / 32 % 8 == 7 && not (is_reserved b1 b2))

unfoldable pub mp3_samples_per_frame : ℕ → ℕ → ℕ
mp3_samples_per_frame version layer =
    if layer == 3 then 384 else if layer == 2 then 1152 else if version == 3 then 1152 else 576

unfoldable pub mp3_bitrate : ℕ → ℕ → ℕ → Run ℕ
mp3_bitrate version layer_code i =
    let bit : ℕ = if version == 3 then 1 else 0 in
    let layer = 4 - layer_code in
    let layer_key = if bit == 0 && (layer == 2 || layer == 3) then 2 else layer in
    elim (mp3_bitrates bit layer_key) [
      | none ↦ done 0
      | some table ↦ if leb (length table) i then done 0 else entry table i
    ]

unfoldable pub mp3_sample_rate : ℕ → ℕ → Run ℕ
mp3_sample_rate version i = entry mp3_sample_rates version >>= λ row. entry row i

-- the loop that looks for the first header; the fuel is that of its rounds
unfoldable pub find_mp3_frame : ℕ → Bytes → ℕ → Run (Option ℕ)
find_mp3_frame zero window i = panic
find_mp3_frame (suc fuel) window i = elim (leb (i + 4) (length window)) [
  | false ↦ done none
  | true ↦ do
    b0 ← index window i
    b1 ← index window (i + 1)
    header ← checked_slice window i (i + 4)
    valid ← parse_mp3_header header
    elim (b0 == 255 && b1 / 32 % 8 == 7 && valid) [
      | true ↦ done (some i)
      | false ↦ find_mp3_frame fuel window (i + 1)
    ]
]

unfoldable pub side_info : ℕ → ℕ → ℕ
side_info version channels =
    if version == 3 && channels == 3
    then 17
    else if version == 3
    then 32
    else if channels == 3
    then 9
    else 17

abbrev pub text_xing : Bytes
text_xing = b'X' ∷ b'i' ∷ b'n' ∷ b'g' ∷ []

abbrev pub text_info : Bytes
text_info = b'I' ∷ b'n' ∷ b'f' ∷ b'o' ∷ []

abbrev pub text_vbri : Bytes
text_vbri = b'V' ∷ b'B' ∷ b'R' ∷ b'I' ∷ []

-- the tag of a Xing or Info header, with the flag of a frame count
unfoldable pub counts_frames : Bytes → ℕ → Bool
counts_frames tag flags = (equal_bytes tag text_xing || equal_bytes tag text_info) && flags % 2 == 1

module _ {F : Type 0} (floats : Floats F) where
  unfoldable pub mp3_header_describes_file : F → ℕ → ℕ → Bool
  mp3_header_describes_file seconds declared_bytes audio_bytes =
      let f = floats.from_ℕ in
      if audio_bytes == 0 || floats.at_most seconds (f 0)
      then false
      else if ltb 0 declared_bytes
          && floats.below (floats.times (f declared_bytes) floats.eleven_tenths) (f audio_bytes)
      then false
      else floats.at_most (floats.over (floats.times (f audio_bytes) (f 8)) seconds) (f 448000)

  -- a number of frames in seconds
  abbrev pub frames_seconds : ℕ → ℕ → ℕ → F
  frames_seconds frames samples_per_frame sample_rate =
      floats.over (floats.times (floats.from_ℕ frames) (floats.from_ℕ samples_per_frame))
        (floats.from_ℕ sample_rate)

  -- `declaredBytes`, for the flags
  unfoldable pub xing_bytes : Bytes → ℕ → ℕ → Run ℕ
  xing_bytes frame xing_off flags =
      if flags / 2 % 2 == 1 && leb (xing_off + 16) (length frame)
      then be_at frame (xing_off + 12) (xing_off + 16)
      else done 0

  -- a header that counts the frames, if it is believed
  unfoldable pub xing_frames : Bytes → ℕ → ℕ → ℕ → ℕ → ℕ → Run (Option F)
  xing_frames frame xing_off flags samples_per_frame sample_rate audio_bytes = do
    frames ← be_at frame (xing_off + 8) (xing_off + 12)
    declared_bytes ← xing_bytes frame xing_off flags
    let declared = frames_seconds frames samples_per_frame sample_rate
    done (
        if ltb 0 frames && mp3_header_describes_file declared declared_bytes audio_bytes
        then some declared
        else none)

  -- the duration that a Xing or Info header declares
  unfoldable pub xing_seconds : Bytes → ℕ → ℕ → ℕ → ℕ → Run (Option F)
  xing_seconds frame xing_off samples_per_frame sample_rate audio_bytes =
      if ltb (length frame) (xing_off + 8) then done none else do
        tag ← checked_slice frame xing_off (xing_off + 4)
        flags ← be_at frame (xing_off + 4) (xing_off + 8)
        elim (counts_frames tag flags && leb (xing_off + 12) (length frame)) [
          | true ↦ xing_frames frame xing_off flags samples_per_frame sample_rate audio_bytes
          | false ↦ done none
        ]

  unfoldable pub vbri_seconds : Bytes → ℕ → ℕ → Run (Option F)
  vbri_seconds frame samples_per_frame sample_rate = if ltb (length frame) 54 then done none else do
    tag ← checked_slice frame 36 40
    elim (equal_bytes tag text_vbri) [
      | false ↦ done none
      | true ↦ do
        frames ← be_at frame 50 54
        done (
            if ltb 0 frames
            then some (frames_seconds frames samples_per_frame sample_rate)
            else none)
    ]

  -- the constant bitrate
  unfoldable pub cbr_seconds : ℕ → ℕ → F
  cbr_seconds bitrate audio_bytes =
      let f = floats.from_ℕ in
      if bitrate == 0 || audio_bytes == 0
      then f 0
      else floats.over (floats.times (f audio_bytes) (f 8)) (floats.times (f bitrate) (f 1000))

  -- probeMP3Duration behind the header and the rate: the headers of a variable bitrate come first
  unfoldable pub mp3_rated_duration : ℕ → ℕ → ℕ → ℕ → ℕ → Bytes → ℕ → Run F
  mp3_rated_duration version layer channels bitrate_code sample_rate frame audio_bytes = do
    let samples_per_frame = mp3_samples_per_frame version layer
    let xing_off = 4 + side_info version channels
    xing ← xing_seconds frame xing_off samples_per_frame sample_rate audio_bytes
    elim xing [
      | some seconds ↦ done seconds
      | none ↦ do
        vbri ← vbri_seconds frame samples_per_frame sample_rate
        elim vbri [
          | some seconds ↦ done seconds
          | none ↦ do
            bitrate ← mp3_bitrate version layer bitrate_code
            done (cbr_seconds bitrate audio_bytes)
        ]
    ]

  -- probeMP3Duration behind the first header, which the window has at `off`
  unfoldable pub mp3_frame_duration : Resource → ℕ → ℕ → Bytes → ℕ → Run F
  mp3_frame_duration r size start window off = do
    b1 ← index window (off + 1)
    b2 ← index window (off + 2)
    b3 ← index window (off + 3)
    sample_rate ← mp3_sample_rate (version_bits b1) (sample_index b2)
    elim (sample_rate == 0) [
      | true ↦ done (floats.from_ℕ 0)
      | false ↦
          mp3_rated_duration (version_bits b1) (layer_bits b1) (b3 / 64 % 4) (bitrate_index b2)
            sample_rate (read_range r (start + off) 1024) (size - (start + off))
    ]

  unfoldable pub probe_mp3_duration : Resource → ℕ → Run F
  probe_mp3_duration r size = do
    start ← skip_id3v2 r
    let window = read_range r start 8192
    found ← find_mp3_frame (suc (length window)) window 0
    elim found [
      | none ↦ done (floats.from_ℕ 0)
      | some off ↦ mp3_frame_duration r size start window off
    ]
