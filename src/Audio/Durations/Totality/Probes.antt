-- ===== src/Audio/Durations/Totality/Probes.antt =====
-- pkg/parser/audio: the probes of FLAC, WAV, AIFF, WebM and AAC files return.
use go_toolkit.Prelude.{ℕ, suc, ◌+◌, ◌-◌, min, not, ◌||◌, ltb, leb, length, slice, arith, ltb→le}
use go_toolkit.Prelude.Panic.{checked_slice-done}
use go_toolkit.Fetcher.Resource.{Resource}
use go_toolkit.Audio.Durations.Decoding.{
  Floats, equal_bytes, has_prefix, read_range, skip_id3v2, be_at, le_at,
}
use go_toolkit.Audio.Durations.Flac.{probe_flac_duration, flac_magic}
use go_toolkit.Audio.Durations.Chunks.{
  riff_limit, wav_loop, empty_wav, text_riff, text_wave, text_form, text_aiff, text_aifc,
  probe_wav_duration, probe_aiff_duration,
}
use go_toolkit.Audio.Durations.Webm.{Info, walk, ebml_magic, probe_webm_duration}
use go_toolkit.Audio.Durations.Aac.{scan_frames, empty_scan, aac_scan_window, probe_aac_duration}
use go_toolkit.Audio.Durations.Totality.{
  Returns, then-Returns, if_Returns, be_at-Returns, le_at-Returns, skip_id3v2-Returns,
}
use go_toolkit.Audio.Durations.Totality.Headers.{flac_block-Returns}
use go_toolkit.Audio.Durations.Totality.Walks.{wav_loop-Returns, aiff_loop-Returns}
use go_toolkit.Audio.Durations.Totality.Elements.{walk-Returns}
use go_toolkit.Audio.Durations.Totality.Frames.{scan_frames-Returns}

module _ {F : Type 0} (floats : Floats F) where
  pub probe_flac_duration-Returns : (r : Resource) → Returns (probe_flac_duration floats r)
  unfolding probe_flac_duration
  probe_flac_duration-Returns r = then-Returns (skip_id3v2 r) _ (skip_id3v2-Returns r) (λ base.
      if_Returns (not (equal_bytes (read_range r base 4) flac_magic)) _ _ (λ e. tt)
        (λ e. flac_block-Returns floats (read_range r (base + 4) 38)))

  pub probe_wav_duration-Returns :
      (r : Resource) (size : ℕ) → Returns (probe_wav_duration floats r size)
  unfolding probe_wav_duration
  probe_wav_duration-Returns r size =
      let header = read_range r 0 12 in
      if_Returns (ltb (length header) 12) _ _ (λ e. tt)
        (λ e.
          let long = ltb→le (length header) 12 e in
          rw
            (
              checked_slice-done header 0 4 (omega arith) (omega arith),
              checked_slice-done header 8 12 (omega arith) long,
            )
            (then-Returns (le_at header 4 8) _
              (le_at-Returns header 4 8 (omega arith) (omega arith))
              (λ declared.
                let limit = riff_limit declared size in
                if_Returns
                  (not (equal_bytes (slice header 0 4) text_riff)
                    || not (equal_bytes (slice header 8 12) text_wave))
                  _ _ (λ other. tt)
                  (λ wave.
                    then-Returns (wav_loop (suc limit) r limit 12 empty_wav) _
                      (wav_loop-Returns (suc limit) r limit 12 empty_wav (omega arith)
                        (omega arith))
                      (λ w. tt)))))

  pub probe_aiff_duration-Returns :
      (r : Resource) (size : ℕ) → Returns (probe_aiff_duration floats r size)
  unfolding probe_aiff_duration
  probe_aiff_duration-Returns r size =
      let header = read_range r 0 12 in
      if_Returns (ltb (length header) 12) _ _ (λ e. tt)
        (λ e.
          let long = ltb→le (length header) 12 e in
          rw
            (
              checked_slice-done header 0 4 (omega arith) (omega arith),
              checked_slice-done header 8 12 (omega arith) long,
            )
            (then-Returns (be_at header 4 8) _
              (be_at-Returns header 4 8 (omega arith) (omega arith))
              (λ declared.
                let inner = slice header 8 12 in
                let limit = riff_limit declared size in
                if_Returns
                  (not (equal_bytes (slice header 0 4) text_form)
                    || not (equal_bytes inner text_aiff || equal_bytes inner text_aifc))
                  _ _ (λ other. tt)
                  (λ form.
                    aiff_loop-Returns floats (suc limit) r limit 12 (omega arith) (omega arith)))))

  pub probe_webm_duration-Returns :
      (r : Resource) (size : ℕ) → Returns (probe_webm_duration floats r size)
  unfolding probe_webm_duration
  probe_webm_duration-Returns r size =
      let buf = read_range r 0 (min 1048576 size) in
      let st : Info F = record { timecode_scale = 1000000; duration = floats.from_ℕ 0 } in
      if_Returns (ltb (length buf) 4 || not (has_prefix buf ebml_magic)) _ _ (λ e. tt)
        (λ e. then-Returns (walk floats 3 buf st) _ (walk-Returns floats 3 buf st) (λ end. tt))

  pub probe_aac_duration-Returns :
      (r : Resource) (size : ℕ) → Returns (probe_aac_duration floats r size)
  unfolding probe_aac_duration
  probe_aac_duration-Returns r size = then-Returns (skip_id3v2 r) _ (skip_id3v2-Returns r) (λ start.
      let bs = read_range r start (min (size - start) aac_scan_window) in
      if_Returns (leb size start || ltb (length bs) 7) _ _ (λ e. tt)
        (λ e.
          then-Returns (scan_frames (suc (length bs)) bs 0 empty_scan) _
            (scan_frames-Returns (suc (length bs)) bs 0 empty_scan (omega arith) (omega arith))
            (λ st. tt)))
