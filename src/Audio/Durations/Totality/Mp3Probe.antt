-- ===== src/Audio/Durations/Totality/Mp3Probe.antt =====
-- pkg/parser/audio/duration_formats.go: the probe of an MP3 stream returns.
use go_toolkit.Prelude.{
  ℕ, suc, ◌+◌, ◌-◌, ◌/◌, ◌%◌, ◌≤◌, ◌<◌, inl, inr, ◌&&◌, Option, none, some, ltb, leb, ◌==◌, Bytes,
  length, slice, get_or, arith, Bool-cases, Option-cases, ltb→le,
}
use go_toolkit.Prelude.Panic.{done, Ends-bind, checked_slice, checked_slice-done}
use go_toolkit.Fetcher.Resource.{Resource}
use go_toolkit.Audio.Durations.Decoding.{
  Floats, equal_bytes, read_range, skip_id3v2, index-done, be_at,
}
use go_toolkit.Audio.Durations.Mp3.{
  version_bits, layer_bits, bitrate_index, sample_index, find_mp3_frame, mp3_bitrate,
  mp3_sample_rate, mp3_samples_per_frame, text_vbri, counts_frames, side_info, xing_bytes,
  xing_frames, xing_seconds, vbri_seconds, mp3_rated_duration, mp3_frame_duration,
  probe_mp3_duration,
}
use go_toolkit.Audio.Durations.Totality.{
  Returns, weaken, then-Returns, if_Returns, slice-Returns, be_at-Returns, skip_id3v2-Returns,
}
use go_toolkit.Audio.Durations.Totality.Mp3Frames.{
  IsFrameStart, find_mp3_frame-IsFrameStart, header_rates-positive,
}

module _ {F : Type 0} (floats : Floats F) where
  -- the headers of a variable bitrate
  xing_bytes-Returns :
      (frame : Bytes) (xing_off flags : ℕ) → Returns (xing_bytes floats frame xing_off flags)
  unfolding xing_bytes
  xing_bytes-Returns frame xing_off flags =
      if_Returns (flags / 2 % 2 == 1 && leb (xing_off + 16) (length frame)) _ _
        (λ e. be_at-Returns frame (xing_off + 12) (xing_off + 16) (omega arith) (ground (arith, e)))
        (λ e. tt)

  xing_seconds-Returns :
      (frame : Bytes) (xing_off spf rate audio_bytes : ℕ)
      → Returns (xing_seconds floats frame xing_off spf rate audio_bytes)
  unfolding xing_seconds xing_frames
  xing_seconds-Returns frame xing_off spf rate audio_bytes =
      if_Returns (ltb (length frame) (xing_off + 8)) _ _ (λ e. tt)
        (λ e.
          let long = ltb→le (length frame) (xing_off + 8) e in
          let tag = slice frame xing_off (xing_off + 4) in
          rw (checked_slice-done frame xing_off (xing_off + 4) (omega arith) (omega arith)) (
            then-Returns (be_at frame (xing_off + 4) (xing_off + 8)) _
              (be_at-Returns frame (xing_off + 4) (xing_off + 8) (omega arith) long)
              (λ flags.
                elim (Bool-cases (counts_frames tag flags && leb (xing_off + 12) (length frame))) [
                  | inr no_count ↦ rw no_count tt
                  | inl count ↦
                      let fits : xing_off + 12 ≤ length frame = ground (arith, count) in
                      rw count (
                        then-Returns (be_at frame (xing_off + 8) (xing_off + 12)) _
                          (be_at-Returns frame (xing_off + 8) (xing_off + 12) (omega arith) fits)
                          (λ frames.
                            then-Returns (xing_bytes floats frame xing_off flags) _
                              (xing_bytes-Returns frame xing_off flags) (λ declared. tt)))
                ])))

  vbri_seconds-Returns :
      (frame : Bytes) (spf rate : ℕ) → Returns (vbri_seconds floats frame spf rate)
  unfolding vbri_seconds
  vbri_seconds-Returns frame spf rate =
      if_Returns (ltb (length frame) 54) _ _ (λ e. tt)
        (λ e.
          let long = ltb→le (length frame) 54 e in
          then-Returns (checked_slice frame 36 40) _
            (slice-Returns frame 36 40 (omega arith) (omega arith))
            (λ tag. elim (Bool-cases (equal_bytes tag text_vbri)) [
              | inr other ↦ rw other tt
              | inl vbri ↦ rw vbri (
                  then-Returns (be_at frame 50 54) _ (be_at-Returns frame 50 54 (omega arith) long)
                    (λ frames. tt))
            ]))

  mp3_rated_duration-Returns :
      (version layer channels code rate : ℕ) (frame : Bytes) (audio_bytes : ℕ)
      → Returns (mp3_bitrate version layer code)
      → Returns (mp3_rated_duration floats version layer channels code rate frame audio_bytes)
  unfolding mp3_rated_duration
  mp3_rated_duration-Returns version layer channels code rate frame audio_bytes h =
      let spf = mp3_samples_per_frame version layer in
      let off = 4 + side_info version channels in
      then-Returns (xing_seconds floats frame off spf rate audio_bytes) _
        (xing_seconds-Returns frame off spf rate audio_bytes)
        (λ o. elim (Option-cases o) [
          | inr (seconds, e) ↦ rw e tt
          | inl e ↦ rw e (
              then-Returns (vbri_seconds floats frame spf rate) _
                (vbri_seconds-Returns frame spf rate)
                (λ v. elim (Option-cases v) [
                  | inr (seconds, e') ↦ rw e' tt
                  | inl e' ↦
                      rw e' (then-Returns (mp3_bitrate version layer code) _ h (λ bitrate. tt))
                ]))
        ])

  mp3_frame_duration-Returns :
      (r : Resource) (size start : ℕ) (window : Bytes) (off : ℕ)
      → IsFrameStart window (some off)
      → Returns (mp3_frame_duration floats r size start window off)
  unfolding mp3_frame_duration
  mp3_frame_duration-Returns r size start window off (fits, b0, b1, valid) =
      let first = get_or window (off + 1) 0 in
      let second = get_or window (off + 2) 0 in
      let third = get_or window (off + 3) 0 in
      let rates = header_rates-positive first second valid in
      rw
        (
          index-done window (off + 1) (omega arith),
          index-done window (off + 2) (omega arith),
          index-done window (off + 3) (omega arith),
        )
        (then-Returns (mp3_sample_rate (version_bits first) (sample_index second)) _
          (weaken (λ n. 0 < n) _ rates.0)
          (λ rate. elim (Bool-cases (rate == 0)) [
            | inl no_rate ↦ rw no_rate tt
            | inr some_rate ↦ rw some_rate (
                mp3_rated_duration-Returns (version_bits first) (layer_bits first) (third / 64 % 4)
                  (bitrate_index second) rate (read_range r (start + off) 1024)
                  (size - (start + off)) (weaken (λ n. 0 < n) _ rates.1))
          ]))

  pub probe_mp3_duration-Returns :
      (r : Resource) (size : ℕ) → Returns (probe_mp3_duration floats r size)
  unfolding probe_mp3_duration
  probe_mp3_duration-Returns r size = then-Returns (skip_id3v2 r) _ (skip_id3v2-Returns r) (λ start.
      let window = read_range r start 8192 in
      Ends-bind (IsFrameStart window) (λ x. Unit) (find_mp3_frame (suc (length window)) window 0) _
        (find_mp3_frame-IsFrameStart (suc (length window)) window 0 (omega arith) (omega arith))
        (λ o. found start window o))
    where
      found :
          (start : ℕ) (window : Bytes) (o : Option ℕ)
          → IsFrameStart window o
          → Returns (elim o [
            | none ↦ done (floats.from_ℕ 0)
            | some off ↦ mp3_frame_duration floats r size start window off
          ])
      found start window none h = tt
      found start window (some off) h = mp3_frame_duration-Returns r size start window off h
