-- ===== src/Audio/Durations/Aac.antt =====
-- pkg/parser/audio/duration_formats.go: the duration of a raw AAC stream, whose ADTS frames are counted.
use go_toolkit.Prelude.{
  ℕ, zero, suc, ◌+◌, ◌-◌, ◌*◌, ◌/◌, ◌%◌, min, Bool, true, not, false, ◌&&◌, ◌||◌, List, [], ◌∷◌,
  ltb, leb, ◌==◌, if◌then◌else◌, Bytes, length,
}
use go_toolkit.Prelude.Panic.{Run, done, panic, ◌>>=◌, index}
use go_toolkit.Fetcher.Resource.{Resource}
use go_toolkit.Audio.Durations.Decoding.{Floats, read_range, skip_id3v2}

abbrev pub aac_sample_rates : List ℕ
aac_sample_rates =
    96000 ∷ 88200 ∷ 64000 ∷ 48000 ∷ 44100 ∷ 32000 ∷ 24000 ∷ 22050 ∷ 16000 ∷ 12000 ∷ 11025 ∷ 8000
    ∷ 7350 ∷ 0 ∷ 0 ∷ 0 ∷ []

abbrev pub aac_scan_window : ℕ
aac_scan_window = 16777216

pub record Scan : Type 0 where
  pub sample_rate : ℕ
  pub total_samples : ℕ
  pub consumed : ℕ

abbrev pub empty_scan : Scan
empty_scan = record { sample_rate = 0; total_samples = 0; consumed = 0 }

-- what is read of the seven bytes at an offset: the sync word, the rate, the length of the frame and
-- its blocks
pub record FrameHeader : Type 0 where
  pub synced : Bool
  pub rate : ℕ
  pub frame_len : ℕ
  pub blocks : ℕ

unfoldable pub frame_header : Bytes → ℕ → Run FrameHeader
frame_header bs pos = do
  b0 ← index bs pos
  b1 ← index bs (pos + 1)
  b2 ← index bs (pos + 2)
  b3 ← index bs (pos + 3)
  b4 ← index bs (pos + 4)
  b5 ← index bs (pos + 5)
  b6 ← index bs (pos + 6)
  rate ← index aac_sample_rates (b2 / 4 % 16)
  done (record {
    synced = b0 == 255 && b1 / 16 % 16 == 15;
    rate = rate;
    frame_len = b3 % 4 * 2048 + b4 * 8 + b5 / 32;
    blocks = b6 % 4 + 1;
  })

unfoldable pub count_frame : FrameHeader → ℕ → Scan → Scan
count_frame h pos st = record {
  sample_rate = if st.sample_rate == 0 then h.rate else st.sample_rate;
  total_samples = st.total_samples + 1024 * h.blocks;
  consumed = pos + h.frame_len;
}

-- the loop, with fuel for its rounds
unfoldable pub scan_frames : ℕ → Bytes → ℕ → Scan → Run Scan
scan_frames zero bs pos st = panic
scan_frames (suc fuel) bs pos st = elim (leb (pos + 7) (length bs)) [
  | false ↦ done st
  | true ↦ frame_header bs pos >>= λ h. elim (not h.synced || h.rate == 0 || ltb h.frame_len 7) [
    | true ↦ scan_frames fuel bs (pos + 1) st
    | false ↦ elim (ltb (length bs) (pos + h.frame_len)) [
      | true ↦ done st
      | false ↦ scan_frames fuel bs (pos + h.frame_len) (count_frame h pos st)
    ]
  ]
]

module _ {F : Type 0} (floats : Floats F) where
  -- the samples are extrapolated where the window does not hold the whole stream
  unfoldable pub scan_seconds : Scan → ℕ → ℕ → F
  scan_seconds st read_len remaining =
      let f = floats.from_ℕ in
      let samples =
        if ltb read_len remaining
        then floats.times (f st.total_samples) (floats.over (f remaining) (f st.consumed))
        else f st.total_samples in
      if st.sample_rate == 0 || st.total_samples == 0 || st.consumed == 0
      then f 0
      else floats.over samples (f st.sample_rate)

  unfoldable pub probe_aac_duration : Resource → ℕ → Run F
  probe_aac_duration r size = do
    start ← skip_id3v2 r
    let remaining = size - start
    let read_len = min remaining aac_scan_window
    let bs = read_range r start read_len
    if leb size start || ltb (length bs) 7 then done (floats.from_ℕ 0) else do
      st ← scan_frames (suc (length bs)) bs 0 empty_scan
      done (scan_seconds st read_len remaining)
