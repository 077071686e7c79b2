-- ===== src/Audio/Id3/Totality.antt =====
-- pkg/parser/audio/id3chapters.go: reading the frames of a tag returns, whatever bytes a resource gives.
use go_toolkit.Prelude.{
  ℕ, zero, suc, ◌+◌, ◌/◌, ◌%◌, ◌≤◌, ◌<◌, inl, inr, not, ◌&&◌, ◌||◌, ltb, leb, ◌==◌, Bytes, length,
  slice, arith, Bool-cases, Option-cases, ltb→le, leb→le,
}
use go_toolkit.Prelude.Panic.{Ends-bind, checked_slice-done, index}
use go_toolkit.Fetcher.Resource.{Resource}
use go_toolkit.Audio.Durations.Decoding.{
  equal_bytes, has_prefix, id3, read_range, synchsafe_at, be_at,
}
use go_toolkit.Audio.Durations.Totality.{
  Returns, weaken, then-Returns, if_Returns, index-Returns, be_at-Returns, synchsafe_at-Returns,
}
use go_toolkit.Audio.Id3.Frames.{id3_frame_size, parse_chap_frame}
use go_toolkit.Audio.Id3.TextFrames.{Texts, parse_txxx_frame}
use go_toolkit.Audio.Id3.TextTotality.{parse_txxx_frame-Returns}
use go_toolkit.Audio.Id3.Windows.{
  id3_max_text_frame, Id3Frames, no_frames, Window, no_window, read_window, text_chap, text_txxx,
  take_frame, read_frame, frames_loop, skip_extended, read_tag, read_id3_frames,
}
use go_toolkit.Audio.Id3.FrameTotality.{digits_of, parse_chap_frame-Returns}
use go_toolkit.Audio.Id3.Reading.{IsLong, long_frame, read_window-IsLong}

module _ (texts : Texts) where
  take_frame-Returns :
      (version : ℕ) (id body : Bytes) (found : Id3Frames)
      → Returns (take_frame texts version id body found)
  unfolding take_frame
  take_frame-Returns version id body found =
      if_Returns (equal_bytes id text_chap) _ _
        (λ e.
          then-Returns (parse_chap_frame texts body version) _
            (parse_chap_frame-Returns texts body version) (λ c. tt))
        (λ e.
          then-Returns (parse_txxx_frame texts body) _ (parse_txxx_frame-Returns texts body)
            (λ text. tt))

  read_frame-Returns :
      (r : Resource) (end version : ℕ) (id : Bytes) (at size : ℕ) (w : Window) (found : Id3Frames)
      → Returns (read_frame texts r end version id at size w found)
  unfolding read_frame
  read_frame-Returns r end version id at size w found =
      elim (Bool-cases
        ((equal_bytes id text_chap || equal_bytes id text_txxx) && leb size id3_max_text_frame)) [
          | inr other ↦ rw (other, read_frame) tt
          | inl text ↦
              rw (text, read_frame)
                (then-Returns (read_window r end at size w) _
                  (weaken (IsLong size) _ (read_window-IsLong r end at size w))
                  (λ answer. elim (Option-cases answer.0) [
                    | inl missing ↦ rw missing tt
                    | inr (body, e) ↦ rw e (
                        then-Returns (take_frame texts version id body found) _
                          (take_frame-Returns version id body found) (λ found'. tt))
                  ]))
        ]

  frames_loop-Returns :
      (fuel : ℕ) (r : Resource) (end version offset : ℕ) (w : Window) (found : Id3Frames)
      → 0 < fuel
      → end < offset + fuel
      → Returns (frames_loop texts fuel r end version offset w found)
  unfolding frames_loop
  frames_loop-Returns zero r end version offset w found p h = absurd (omega arith)
  frames_loop-Returns (suc fuel) r end version offset w found p h =
      elim (Bool-cases (leb (offset + 10) end)) [
        | inr over ↦ rw (over, frames_loop) tt
        | inl more ↦
            let inside = leb→le (offset + 10) end more in
            rw (more, frames_loop)
              (Ends-bind (IsLong 10) _ (read_window r end offset 10 w) _
                (read_window-IsLong r end offset 10 w)
                (λ answer long. elim (Option-cases answer.0) [
                  | inl missing ↦ rw missing tt
                  | inr (frame, e) ↦
                      let ten = long_frame answer frame 10 e long in
                      rw e (
                        then-Returns (index frame 0) _ (index-Returns frame 0 (omega arith)) (λ b0.
                          elim (Bool-cases (b0 == 0)) [
                            | inl padding ↦ rw padding tt
                            | inr named ↦
                                rw
                                  (
                                    named,
                                    checked_slice-done frame 0 4 (omega arith) (omega arith),
                                    checked_slice-done frame 4 8 (omega arith) (omega arith),
                                  )
                                  (then-Returns (id3_frame_size (slice frame 4 8) version) _
                                    (digits_of frame version (omega arith))
                                    (λ size.
                                      elim (Bool-cases
                                        (size == 0 || ltb end (offset + 10 + size))) [
                                          | inl last ↦ rw last tt
                                          | inr next ↦
                                              let id = slice frame 0 4 in
                                              rw next (
                                                then-Returns
                                                  (read_frame texts r end version id (offset + 10)
                                                    size answer.1 found)
                                                  _
                                                  (read_frame-Returns r end version id (offset + 10)
                                                    size answer.1 found)
                                                  (λ read.
                                                    frames_loop-Returns fuel r end version
                                                      (offset + 10 + size) read.0 read.1
                                                      (omega arith) (omega arith)))
                                        ]))
                          ]))
                ]))
      ]

  skip_extended-Returns :
      (r : Resource) (version flags : ℕ) → Returns (skip_extended texts r version flags)
  unfolding skip_extended
  skip_extended-Returns r version flags =
      let extended = read_range r 10 4 in
      if_Returns (not (flags / 64 % 2 == 1)) _ _ (λ e. tt)
        (λ e.
          if_Returns (ltb (length extended) 4) _ _ (λ z. tt)
            (λ z.
              let long = ltb→le (length extended) 4 z in
              if_Returns (version == 4) _ _
                (λ v.
                  then-Returns (synchsafe_at extended 0) _ (synchsafe_at-Returns extended 0 long)
                    (λ n. tt))
                (λ v.
                  then-Returns (be_at extended 0 4) _
                    (be_at-Returns extended 0 4 (omega arith) long) (λ n. tt))))

  read_tag-Returns :
      (r : Resource) (header : Bytes) (version : ℕ)
      → 10 ≤ length header
      → Returns (read_tag texts r header version)
  unfolding read_tag
  read_tag-Returns r header version h =
      then-Returns (synchsafe_at header 6) _ (synchsafe_at-Returns header 6 h) (λ size.
        then-Returns (index header 5) _ (index-Returns header 5 (omega arith)) (λ flags.
          then-Returns (skip_extended texts r version flags) _
            (skip_extended-Returns r version flags)
            (λ offset. elim (Option-cases offset) [
              | inl missing ↦ rw missing tt
              | inr (at, e) ↦ rw e (
                  frames_loop-Returns (suc (10 + size)) r (10 + size) version at no_window no_frames
                    (omega arith) (omega arith))
            ])))

  -- Over any resource, whatever bytes and errors it returns, reading the frames of a tag returns: no
  -- index or slice expression panics, also in the window that the frames share and in parsing and
  -- decoding the bodies of CHAP and TXXX frames, and each loop ends within its fuel.
  pub read_id3_frames-Returns : (r : Resource) → Returns (read_id3_frames texts r)
  unfolding read_id3_frames
  read_id3_frames-Returns r =
      let header = read_range r 0 10 in
      if_Returns (ltb (length header) 10 || not (has_prefix header id3)) _ _ (λ e. tt)
        (λ e.
          let long : 10 ≤ length header = ground (arith, e) in
          then-Returns (index header 3) _ (index-Returns header 3 (omega arith)) (λ version.
            elim (Bool-cases (not (version == 3) && not (version == 4))) [
              | inl old ↦ rw old tt
              | inr known ↦ rw known (read_tag-Returns r header version long)
            ]))
