-- ===== src/Audio/Durations/AdtsCount.antt =====
-- pkg/parser/audio/duration_formats.go: the scan of a raw AAC stream counts all of its frames.
use go_toolkit.Prelude.{
  ℕ, zero, suc, ◌+◌, ◌-◌, ◌*◌, ◌≤◌, ◌<◌, ◌≡◌, refl, sym, ap, ◌∙◌, min, Bool, true, false, not, ◌&&◌,
  ◌||◌, List, [], ◌∷◌, ◌++◌, ltb, leb, ◌==◌, if◌then◌else◌, Bytes, length, take-all, drop,
  drop-drop, drop-append, All, length-append, slice, arith, le→ltb, le→leb, lt→leb,
}
use go_toolkit.Prelude.Panic.{done, ◌>>=◌}
use go_toolkit.Fetcher.Resource.{Resource, ok, range}
use go_toolkit.Audio.Durations.Decoding.{
  Floats, equal_bytes, has_prefix, read_range, id3, skip_id3v2,
}
use go_toolkit.Audio.Durations.Aac.{
  Scan, aac_scan_window, empty_scan, count_frame, scan_frames, scan_seconds, probe_aac_duration,
}
use go_toolkit.Audio.Durations.AdtsStream.{
  AdtsFrame, IsAdts, frame_bytes, adts_stream, samples, frame_rate, frame_rate_positive,
  length-frame_bytes, frame_header-frame_bytes,
}

-- behind the first frame: the rate is known, and all before `pos` is consumed
counted :
    (fuel : ℕ) (fs : List AdtsFrame) (bs : Bytes) (pos : ℕ) (st : Scan)
    → All IsAdts fs
    → drop pos bs ≡ adts_stream fs
    → length bs ≡ pos + length (adts_stream fs)
    → 0 < st.sample_rate
    → st.consumed ≡ pos
    → 0 < fuel
    → length bs < pos + fuel
    → scan_frames fuel bs pos st
      ≡ done (record {
        sample_rate = st.sample_rate;
        total_samples = st.total_samples + samples fs;
        consumed = length bs;
      })
unfolding scan_frames count_frame
counted zero fs bs pos st fits here whole rate at p h = absurd (omega arith)
counted (suc fuel) [] bs pos st fits here whole rate at p h =
    let over = lt→leb (pos + 7) (length bs) (omega arith) in
    let none_more : st.total_samples + 0 ≡ st.total_samples = omega arith in
    let consumed : length bs ≡ st.consumed = omega arith in
    rw (over, scan_frames, none_more, consumed) refl
counted (suc fuel) (f ∷ fs) bs pos st (fit, fits) here whole rate at p h =
    let n = length f.payload + 7 in
    let len : length (frame_bytes f ++ adts_stream fs) ≡ n + length (adts_stream fs) =
      omega (arith, length-append (frame_bytes f) (adts_stream fs), length-frame_bytes f) in
    let fits_in : pos + n ≤ length bs = omega arith in
    let more = le→leb (pos + 7) (length bs) (omega arith) in
    let valid : (not true || frame_rate f == 0 || ltb n 7) ≡ false =
      ground (arith, frame_rate_positive f fit) in
    let inside = le→ltb (length bs) (pos + n) fits_in in
    let known : (st.sample_rate == 0) ≡ false = ground arith in
    let left : drop (pos + n) bs ≡ adts_stream fs =
      sym (drop-drop pos n (pos + n) bs refl)
      ∙ ap (drop n) here
      ∙ drop-append n (frame_bytes f) (adts_stream fs) (sym (length-frame_bytes f)) in
    let sum : st.total_samples + 1024 * (f.more_blocks + 1) + samples fs
        ≡ st.total_samples + (1024 * (f.more_blocks + 1) + samples fs) =
      omega arith in
    rw
      (
        more,
        scan_frames,
        frame_header-frame_bytes f bs (adts_stream fs) pos fit here (omega arith),
        ◌>>=◌,
        valid,
        inside,
        known,
      )
      (counted fuel fs bs (pos + n)
          (record {
            sample_rate = st.sample_rate;
            total_samples = st.total_samples + 1024 * (f.more_blocks + 1);
            consumed = pos + n;
          })
          fits left (omega arith) rate refl (omega arith) (omega arith)
        ∙ ap
            (λ t.
              done
                (record { sample_rate = st.sample_rate; total_samples = t; consumed = length bs }))
            sum)

-- The scan of the frames of a stream, which has at least one, returns the rate of the first, the
-- samples of all of them, and the end of the last.
pub scan_frames-adts_stream :
    (f : AdtsFrame) (fs : List AdtsFrame)
    → All IsAdts (f ∷ fs)
    → scan_frames (suc (length (adts_stream (f ∷ fs)))) (adts_stream (f ∷ fs)) 0 empty_scan
      ≡ done (record {
        sample_rate = frame_rate f;
        total_samples = samples (f ∷ fs);
        consumed = length (adts_stream (f ∷ fs));
      })
unfolding scan_frames count_frame
scan_frames-adts_stream f fs (fit, fits) =
    let bs = adts_stream (f ∷ fs) in
    let n = length f.payload + 7 in
    let len : length bs ≡ n + length (adts_stream fs) =
      omega (arith, length-append (frame_bytes f) (adts_stream fs), length-frame_bytes f) in
    let more = le→leb 7 (length bs) (omega arith) in
    let valid : (not true || frame_rate f == 0 || ltb n 7) ≡ false =
      ground (arith, frame_rate_positive f fit) in
    let none_yet : 0 + 1024 * (f.more_blocks + 1) ≡ 1024 * (f.more_blocks + 1) = omega arith in
    let start : 0 + n ≡ n = omega arith in
    let inside = le→ltb (length bs) (0 + n) (omega arith) in
    rw
      (
        more,
        scan_frames,
        frame_header-frame_bytes f bs (adts_stream fs) 0 fit refl (omega arith),
        ◌>>=◌,
        valid,
        inside,
        start,
        none_yet,
      )
      (counted (length bs) fs bs n
        (record {
          sample_rate = frame_rate f;
          total_samples = 1024 * (f.more_blocks + 1);
          consumed = n;
        })
        fits (drop-append n (frame_bytes f) (adts_stream fs) (sym (length-frame_bytes f))) len
        (frame_rate_positive f fit) refl (omega arith) (omega arith))

if_true {ℓ} : {A : Type ℓ} (b : Bool) (x y : A) → b ≡ true → (if b then x else y) ≡ x
if_true true x y h = refl
if_true false x y h = absurd (ground (arith, h))

-- the first byte is no text of an ID3 tag
no_tag :
    (f : AdtsFrame) (fs : List AdtsFrame) (r : Resource)
    → ((start end : ℕ) → r.read start end ≡ ok (range (adts_stream (f ∷ fs)) start end))
    → skip_id3v2 r ≡ done 0
unfolding skip_id3v2 read_range has_prefix equal_bytes slice frame_bytes
no_tag f fs r served =
    let header = range (adts_stream (f ∷ fs)) 0 9 in
    let other : not (has_prefix header id3) ≡ true = refl in
    rw (served 0 9) (
      if_true (ltb (length header) 10 || not (has_prefix header id3)) (done 0) _
        (ground (arith, other)))

whole_read :
    (bs : Bytes) (r : Resource)
    → 7 ≤ length bs
    → ((start end : ℕ) → r.read start end ≡ ok (range bs start end))
    → read_range r 0 (length bs) ≡ bs
unfolding read_range slice
whole_read bs r long served =
    let some_bytes : (length bs == 0) ≡ false = ground arith in
    let part : (0 == 0 && (length bs - 1 == 0)) ≡ false = ground arith in
    let last : 0 + length bs - 1 ≡ length bs - 1 = omega arith in
    let stop : suc (length bs - 1) ≡ length bs = omega arith in
    rw (some_bytes, last, served 0 (length bs - 1), part, stop)
      (take-all (length bs - 0) bs (omega arith))

module _ {F : Type 0} (floats : Floats F) where
  -- AAC round trip. From a resource that serves every range of a stream of at least one ADTS frame,
  -- which the scan window holds, the probe returns the samples of all frames, 1024 for each raw block,
  -- divided by the rate of the first frame.
  pub adts_stream-probe_aac_duration :
      (f : AdtsFrame) (fs : List AdtsFrame) (r : Resource)
      → All IsAdts (f ∷ fs)
      → length (adts_stream (f ∷ fs)) ≤ aac_scan_window
      → ((start end : ℕ) → r.read start end ≡ ok (range (adts_stream (f ∷ fs)) start end))
      → probe_aac_duration floats r (length (adts_stream (f ∷ fs)))
        ≡ done (floats.over (floats.from_ℕ (samples (f ∷ fs))) (floats.from_ℕ (frame_rate f)))
  unfolding probe_aac_duration scan_seconds
  adts_stream-probe_aac_duration f fs r fits small served =
      let bs = adts_stream (f ∷ fs) in
      let n = length bs in
      let long : 7 ≤ n =
        omega (arith, length-append (frame_bytes f) (adts_stream fs), length-frame_bytes f) in
      let all_left : n - 0 ≡ n = omega arith in
      let window : min n aac_scan_window ≡ n = omega arith in
      let fresh : (leb n 0 || ltb n 7) ≡ false = ground arith in
      let rate = frame_rate_positive f fits.0 in
      let counts : (frame_rate f == 0 || samples (f ∷ fs) == 0 || n == 0) ≡ false = ground arith in
      let complete = le→ltb n n (omega arith) in
      rw
        (
          no_tag f fs r served,
          ◌>>=◌,
          all_left,
          window,
          whole_read bs r long served,
          fresh,
          scan_frames-adts_stream f fs fits,
          counts,
          complete,
        )
        refl
