-- ===== src/Audio/Id3/Frames.antt =====
-- pkg/parser/audio/id3chapters.go: the bodies of the frames for chapters.
use go_toolkit.Prelude.{
  ℕ, zero, suc, ◌+◌, true, false, ◌&&◌, Option, none, some, [], ◌∷◌, ltb, leb, ◌==◌, if◌then◌else◌,
  Bytes, length,
}
use go_toolkit.Prelude.Panic.{Run, done, panic, ◌>>=◌, checked_slice, index}
use go_toolkit.Audio.Durations.Decoding.{equal_bytes, synchsafe_at, be_at}
use go_toolkit.Audio.Id3.TextFrames.{Texts, index_byte, decode_id3_text}

pub record ChapterEntry : Type 0 where
  pub title : Bytes
  pub start_millis : ℕ

unfoldable pub id3_frame_size : Bytes → ℕ → Run ℕ
id3_frame_size b version = if version == 4 then synchsafe_at b 0 else be_at b 0 4

abbrev pub text_tit2 : Bytes
text_tit2 = b'T' ∷ b'I' ∷ b'T' ∷ b'2' ∷ []

module _ (texts : Texts) where
  -- the loop over the sub-frames, with fuel for its rounds: the title
  unfoldable pub sub_frames : ℕ → ℕ → Bytes → Run Bytes
  sub_frames zero version sub = panic
  sub_frames (suc fuel) version sub = elim (leb 10 (length sub)) [
    | false ↦ done []
    | true ↦ do
      first ← index sub 0
      elim (first == 0) [
        | true ↦ done []
        | false ↦ do
          digits ← checked_slice sub 4 8
          size ← id3_frame_size digits version
          elim (ltb (length sub) (10 + size)) [
            | true ↦ done []
            | false ↦ do
              id ← checked_slice sub 0 4
              elim (equal_bytes id text_tit2 && ltb 0 size) [
                | true ↦ do
                  body ← checked_slice sub 10 (10 + size)
                  title ← decode_id3_text texts body
                  done (texts.trim_space title)
                | false ↦ do
                  rest ← checked_slice sub (10 + size) (length sub)
                  sub_frames fuel version rest
              ]
          ]
      ]
  ]

  -- `none` is not ok
  unfoldable pub parse_chap_frame : Bytes → ℕ → Run (Option ChapterEntry)
  parse_chap_frame body version = elim (index_byte body 0) [
    | none ↦ done none
    | some id_end ↦ elim (ltb (length body) (id_end + 17)) [
      | true ↦ done none
      | false ↦ do
        start ← be_at body (id_end + 1) (id_end + 5)
        sub ← checked_slice body (id_end + 17) (length body)
        title ← sub_frames (suc (length sub)) version sub
        done (some (record { title = title; start_millis = start }))
    ]
  ]
