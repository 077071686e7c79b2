-- ===== src/Audio/Id3/FrameTotality.antt =====
-- pkg/parser/audio/id3chapters.go: parsing the body of a frame returns.
use go_toolkit.Prelude.{
  ℕ, zero, suc, ◌+◌, ◌≤◌, ◌<◌, inl, inr, ◌&&◌, ltb, leb, ◌==◌, true, false, [], Bytes, length,
  slice, length-slice, arith, Bool-cases, Option-cases, ltb→le, leb→le,
}
use go_toolkit.Prelude.Panic.{done, ◌>>=◌, checked_slice, checked_slice-done, index}
use go_toolkit.Audio.Durations.Decoding.{equal_bytes, be_at}
use go_toolkit.Audio.Durations.Totality.{
  Returns, then-Returns, if_Returns, index-Returns, slice-Returns, be_at-Returns,
  synchsafe_at-Returns,
}
use go_toolkit.Audio.Id3.Frames.{id3_frame_size, text_tit2, sub_frames, parse_chap_frame}
use go_toolkit.Audio.Id3.TextFrames.{Texts, index_byte, decode_id3_text}
use go_toolkit.Audio.Id3.TextTotality.{decode_id3_text-Returns}

pub id3_frame_size-Returns :
    (b : Bytes) (version : ℕ) → 4 ≤ length b → Returns (id3_frame_size b version)
unfolding id3_frame_size
id3_frame_size-Returns b version h =
    if_Returns (version == 4) _ _ (λ e. synchsafe_at-Returns b 0 h)
      (λ e. be_at-Returns b 0 4 (omega arith) h)

-- four digits of a size, cut out of what holds them
pub digits_of :
    (b : Bytes) (version : ℕ) → 8 ≤ length b → Returns (id3_frame_size (slice b 4 8) version)
digits_of b version h =
    id3_frame_size-Returns (slice b 4 8) version (omega (arith, length-slice b 4 8))

module _ (texts : Texts) where
  -- one round, if the rounds on shorter bytes return
  sub_frame-Returns :
      (fuel version : ℕ) (sub : Bytes)
      → 10 ≤ length sub
      → ((next : Bytes) → length next < length sub → Returns (sub_frames texts fuel version next))
      → Returns (do
        size ← id3_frame_size (slice sub 4 8) version
        elim (ltb (length sub) (10 + size)) [
          | true ↦ done []
          | false ↦ do
            id ← checked_slice sub 0 4
            elim (equal_bytes id text_tit2 && ltb 0 size) [
              | true ↦ do
                body ← checked_slice sub 10 (10 + size)
                title ← decode_id3_text texts body
                done (texts.trim_space title)
              | false ↦ do
                rest ← checked_slice sub (10 + size) (length sub)
                sub_frames texts fuel version rest
            ]
        ])
  sub_frame-Returns fuel version sub long later =
      then-Returns (id3_frame_size (slice sub 4 8) version) _ (digits_of sub version (omega arith))
        (λ size. elim (Bool-cases (ltb (length sub) (10 + size))) [
          | inl cut ↦ rw cut tt
          | inr whole ↦
              let fits = ltb→le (length sub) (10 + size) whole in
              rw whole (
                then-Returns (checked_slice sub 0 4) _
                  (slice-Returns sub 0 4 (omega arith) (omega arith))
                  (λ id. elim (Bool-cases (equal_bytes id text_tit2 && ltb 0 size)) [
                    | inl title ↦
                        rw (title, checked_slice-done sub 10 (10 + size) (omega arith) fits)
                          (then-Returns (decode_id3_text texts (slice sub 10 (10 + size))) _
                            (decode_id3_text-Returns texts (slice sub 10 (10 + size))) (λ t. tt))
                    | inr other ↦
                        let rest = length-slice sub (10 + size) (length sub) in
                        rw
                          (
                            other,
                            checked_slice-done sub (10 + size) (length sub) fits (omega arith),
                          )
                          (later (slice sub (10 + size) (length sub)) (omega (arith, rest)))
                  ]))
        ])

  sub_frames-Returns :
      (fuel version : ℕ) (sub : Bytes)
      → length sub < fuel
      → Returns (sub_frames texts fuel version sub)
  unfolding sub_frames
  sub_frames-Returns zero version sub h = absurd (omega arith)
  sub_frames-Returns (suc fuel) version sub h = elim (Bool-cases (leb 10 (length sub))) [
    | inr over ↦ rw (over, sub_frames) tt
    | inl more ↦
        let long = leb→le 10 (length sub) more in
        rw (more, sub_frames)
          (then-Returns (index sub 0) _ (index-Returns sub 0 (omega arith)) (λ first.
            elim (Bool-cases (first == 0)) [
              | inl padding ↦ rw padding tt
              | inr named ↦
                  rw (named, checked_slice-done sub 4 8 (omega arith) (omega arith))
                    (sub_frame-Returns fuel version sub long
                      (λ next shorter. sub_frames-Returns fuel version next (omega arith)))
            ]))
  ]

  pub parse_chap_frame-Returns :
      (body : Bytes) (version : ℕ) → Returns (parse_chap_frame texts body version)
  unfolding parse_chap_frame
  parse_chap_frame-Returns body version = elim (Option-cases (index_byte body 0)) [
    | inl missing ↦ rw (missing, parse_chap_frame) tt
    | inr (id_end, found) ↦ elim (Bool-cases (ltb (length body) (id_end + 17))) [
      | inl short ↦ rw (found, parse_chap_frame, short) tt
      | inr whole ↦
          let fits = ltb→le (length body) (id_end + 17) whole in
          let sub = slice body (id_end + 17) (length body) in
          rw (found, parse_chap_frame, whole)
            (then-Returns (be_at body (id_end + 1) (id_end + 5)) _
              (be_at-Returns body (id_end + 1) (id_end + 5) (omega arith) (omega arith))
              (λ start.
                rw (checked_slice-done body (id_end + 17) (length body) fits (omega arith)) (
                  then-Returns (sub_frames texts (suc (length sub)) version sub) _
                    (sub_frames-Returns (suc (length sub)) version sub (omega arith))
                    (λ title. tt))))
    ]
  ]
