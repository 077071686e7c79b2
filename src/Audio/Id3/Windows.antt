-- ===== src/Audio/Id3/Windows.antt =====
-- pkg/parser/audio/id3chapters.go: readID3Frames, which reads the frames of a tag through a window.
use go_toolkit.Prelude.{
  ℕ, zero, suc, ◌+◌, ◌-◌, ◌/◌, ◌%◌, min, true, false, not, ◌&&◌, ◌||◌, Option, none, some, List, [],
  ◌∷◌, ◌++◌, ltb, leb, ◌==◌, if◌then◌else◌, Bytes, length,
}
use go_toolkit.Prelude.Panic.{Run, done, panic, ◌>>=◌, checked_slice, index}
use go_toolkit.Fetcher.Resource.{Resource}
use go_toolkit.Audio.Durations.Decoding.{
  equal_bytes, has_prefix, id3, synchsafe_at, be_at, read_range,
}
use go_toolkit.Audio.Id3.Frames.{ChapterEntry, id3_frame_size, parse_chap_frame}
use go_toolkit.Audio.Id3.TextFrames.{Texts, parse_txxx_frame}

abbrev pub id3_read_window : ℕ
id3_read_window = 65536

abbrev pub id3_max_text_frame : ℕ
id3_max_text_frame = 2097152

pub record Id3Frames : Type 0 where
  pub chapters : List ChapterEntry
  pub over_drive_markers : Bytes
  pub cue_sheet : Bytes

abbrev pub no_frames : Id3Frames
no_frames = record { chapters = []; over_drive_markers = []; cue_sheet = [] }

-- the variables that the function `read` of readID3Frames keeps
pub record Window : Type 0 where
  pub bytes : Bytes
  pub start : ℕ

abbrev pub no_window : Window
no_window = record { bytes = []; start = 0 }

abbrev pub max : ℕ → ℕ → ℕ
max a b = if ltb a b then b else a

-- `read` behind a miss: `none` is nil
unfoldable pub refill : Resource → ℕ → ℕ → ℕ → Window → Run (Option Bytes × Window)
refill r end at n w =
    let size = min (max n id3_read_window) (end - at) in
    let w' : Window = record { bytes = read_range r at size; start = at } in
    if ltb size n
    then done (none, w)
    else if ltb (length (read_range r at size)) n
    then done (none, w')
    else (checked_slice (read_range r at size) 0 n >>= λ bs. done (some bs, w'))

-- window[at-windowStart : at-windowStart+length], which panics also before the window's start
unfoldable pub window_slice : Window → ℕ → ℕ → Run Bytes
window_slice w at n =
    if ltb at w.start then panic else checked_slice w.bytes (at - w.start) (at - w.start + n)

unfoldable pub read_window : Resource → ℕ → ℕ → ℕ → Window → Run (Option Bytes × Window)
read_window r end at n w =
    if leb w.start at && leb (at + n) (w.start + length w.bytes)
    then (window_slice w at n >>= λ bs. done (some bs, w))
    else refill r end at n w

abbrev pub text_chap : Bytes
text_chap = b'C' ∷ b'H' ∷ b'A' ∷ b'P' ∷ []

abbrev pub text_txxx : Bytes
text_txxx = b'T' ∷ b'X' ∷ b'X' ∷ b'X' ∷ []

abbrev pub overdrive_name : Bytes
overdrive_name =
    b'o' ∷ b'v' ∷ b'e' ∷ b'r' ∷ b'd' ∷ b'r' ∷ b'i' ∷ b'v' ∷ b'e' ∷ b' ' ∷ b'm' ∷ b'e' ∷ b'd' ∷ b'i'
    ∷ b'a' ∷ b'm' ∷ b'a' ∷ b'r' ∷ b'k' ∷ b'e' ∷ b'r' ∷ b's' ∷ []

abbrev pub cuesheet_name : Bytes
cuesheet_name = b'c' ∷ b'u' ∷ b'e' ∷ b's' ∷ b'h' ∷ b'e' ∷ b'e' ∷ b't' ∷ []

module _ (texts : Texts) where
  abbrev pub add_chapter : Option ChapterEntry → Id3Frames → Id3Frames
  add_chapter none found = found
  add_chapter (some c) found = record found { chapters = found.chapters ++ (c ∷ []) }

  abbrev pub add_text : Bytes × Bytes → Id3Frames → Id3Frames
  add_text (description, value) found =
      if equal_bytes (texts.to_lower description) overdrive_name
      then record found { over_drive_markers = value }
      else if equal_bytes (texts.to_lower description) cuesheet_name
      then record found { cue_sheet = value }
      else found

  -- the switch on the id of a frame whose body was read
  unfoldable pub take_frame : ℕ → Bytes → Bytes → Id3Frames → Run Id3Frames
  take_frame version id body found =
      if equal_bytes id text_chap
      then (parse_chap_frame texts body version >>= λ c. done (add_chapter c found))
      else (parse_txxx_frame texts body >>= λ text. done (add_text text found))

  unfoldable pub read_frame :
      Resource → ℕ → ℕ → Bytes → ℕ → ℕ → Window → Id3Frames → Run (Window × Id3Frames)
  read_frame r end version id at size w found =
      elim ((equal_bytes id text_chap || equal_bytes id text_txxx) && leb size id3_max_text_frame) [
        | false ↦ done (w, found)
        | true ↦ do
          answer ← read_window r end at size w
          elim answer.0 [
            | none ↦ done (answer.1, found)
            | some body ↦ take_frame version id body found >>= λ found'. done (answer.1, found')
          ]
      ]

  -- the loop, with fuel for its rounds
  unfoldable pub frames_loop : ℕ → Resource → ℕ → ℕ → ℕ → Window → Id3Frames → Run Id3Frames
  frames_loop zero r end version offset w found = panic
  frames_loop (suc fuel) r end version offset w found = elim (leb (offset + 10) end) [
    | false ↦ done found
    | true ↦ do
      answer ← read_window r end offset 10 w
      elim answer.0 [
        | none ↦ done found
        | some frame ↦ do
          b0 ← index frame 0
          elim (b0 == 0) [
            | true ↦ done found
            | false ↦ do
              id ← checked_slice frame 0 4
              digits ← checked_slice frame 4 8
              size ← id3_frame_size digits version
              elim (size == 0 || ltb end (offset + 10 + size)) [
                | true ↦ done found
                | false ↦ do
                  next ← read_frame r end version id (offset + 10) size answer.1 found
                  frames_loop fuel r end version (offset + 10 + size) next.0 next.1
              ]
          ]
      ]
  ]

  -- the offset behind the extended header, or `none` if that cannot be read
  unfoldable pub skip_extended : Resource → ℕ → ℕ → Run (Option ℕ)
  skip_extended r version flags =
      let extended = read_range r 10 4 in
      if not (flags / 64 % 2 == 1)
      then done (some 10)
      else if ltb (length extended) 4
      then done none
      else if version == 4
      then (synchsafe_at extended 0 >>= λ n. done (some (10 + n)))
      else (be_at extended 0 4 >>= λ n. done (some (10 + (n + 4))))

  unfoldable pub read_tag : Resource → Bytes → ℕ → Run Id3Frames
  read_tag r header version = do
    size ← synchsafe_at header 6
    flags ← index header 5
    offset ← skip_extended r version flags
    elim offset [
      | none ↦ done no_frames
      | some at ↦ frames_loop (suc (10 + size)) r (10 + size) version at no_window no_frames
    ]

  unfoldable pub read_id3_frames : Resource → Run Id3Frames
  read_id3_frames r =
      let header = read_range r 0 10 in
      if ltb (length header) 10 || not (has_prefix header id3) then done no_frames else do
        version ← index header 3
        elim (not (version == 3) && not (version == 4)) [
          | true ↦ done no_frames
          | false ↦ read_tag r header version
        ]
