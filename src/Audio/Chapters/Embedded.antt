-- ===== src/Audio/Chapters/Embedded.antt =====
-- pkg/parser/audio: id3Chapters of id3chapters.go, the chapters that the ID3v2 tag of an MP3 carries, and
-- vorbisChapters of toc.go, those that the Vorbis comments of an Ogg or FLAC file carry.
use go_toolkit.Prelude.{
  Bool, true, not, ◌&&◌, ◌||◌, Option, none, some, List, [], ◌∷◌, ◌++◌, ltb, leb, ◌==◌,
  if◌then◌else◌, Bytes, length, drop,
}
use go_toolkit.Prelude.Panic.{Run, done, ◌>>=◌}
use go_toolkit.Fetcher.Resource.{Resource}
use go_toolkit.Audio.Durations.Decoding.{Floats, equal_bytes, has_prefix, entry}
use go_toolkit.Audio.Id3.TextFrames.{Texts}
use go_toolkit.Audio.Id3.Frames.{ChapterEntry}
use go_toolkit.Audio.Id3.Windows.{Id3Frames, read_id3_frames}
use go_toolkit.Audio.Chapters.{Chapter, IdxChapter, Parsing, split, clean_chapters}
use go_toolkit.Audio.Chapters.Cue.{chapters_from_cue_sheet}

-- tags.Raw in the order in which the loop meets its keys, `none` for nil; a value that is no string
-- is `none`
abbrev pub RawTags : Type 0
RawTags = Option (List (Bytes × Option Bytes))

abbrev pub text_chapter : Bytes
text_chapter = b'c' ∷ b'h' ∷ b'a' ∷ b'p' ∷ b't' ∷ b'e' ∷ b'r' ∷ []

abbrev pub upper_chapter : Bytes
upper_chapter = b'C' ∷ b'H' ∷ b'A' ∷ b'P' ∷ b'T' ∷ b'E' ∷ b'R' ∷ []

abbrev pub text_name : Bytes
text_name = b'n' ∷ b'a' ∷ b'm' ∷ b'e' ∷ []

abbrev pub upper_name : Bytes
upper_name = b'N' ∷ b'A' ∷ b'M' ∷ b'E' ∷ []

abbrev pub all_digits : Bytes → Bool
all_digits [] = true
all_digits (b ∷ bs) = leb b'0' b && leb b b'9' && all_digits bs

-- what `^chapter(\d+)$` captures
unfoldable pub chapter_number : Bytes → Option Bytes
chapter_number key =
    let digits = drop 7 key in
    if has_prefix key text_chapter && ltb 0 (length digits) && all_digits digits
    then some digits
    else none

-- tags.Raw[key].(string), which is empty if it is missing or no string
unfoldable pub raw_text : List (Bytes × Option Bytes) → Bytes → Bytes
raw_text [] key = []
raw_text ((k, value) ∷ raw) key =
    let rest = raw_text raw key in
    if equal_bytes k key then (elim value [ none ↦ [] | some text ↦ text ]) else rest

module _ {F : Type 0} (floats : Floats F) (texts : Texts) (parsing : Parsing F) where
  -- the loop of parseMarkerTime
  unfoldable pub marker_total : F → List Bytes → Option F
  marker_total total [] = some total
  marker_total total (part ∷ parts) = elim (parsing.parse_float part) [
    | none ↦ none
    | some n ↦
        let rest = marker_total (parsing.plus (floats.times total (floats.from_ℕ 60)) n) parts in
        if floats.below n (floats.from_ℕ 0) then none else rest
  ]

  unfoldable pub parse_marker_time : Bytes → Option F
  parse_marker_time value =
      let parts = split b':' (texts.trim_space value) in
      if length parts == 0 || ltb 3 (length parts)
      then none
      else marker_total (floats.from_ℕ 0) parts

  unfoldable pub timed_markers : List (Bytes × Bytes) → List (Chapter F)
  timed_markers [] = []
  timed_markers ((name, time) ∷ markers) = elim (parse_marker_time time) [
    | none ↦ timed_markers markers
    | some start ↦ record { title = texts.trim_space name; start = start } ∷ timed_markers markers
  ]

  unfoldable pub parse_over_drive_markers : Bytes → List (Chapter F)
  parse_over_drive_markers value =
      if length (texts.trim_space value) == 0
      then []
      else elim (parsing.unmarshal_markers value) [ none ↦ [] | some ms ↦ timed_markers ms ]

  -- the times of CHAP frames in seconds
  abbrev pub in_seconds : List ChapterEntry → List (Chapter F)
  in_seconds [] = []
  in_seconds (c ∷ cs) =
      record {
        title = c.title;
        start = floats.over (floats.from_ℕ c.start_millis) (floats.from_ℕ 1000);
      }
      ∷ in_seconds cs

  -- the choice of id3Chapters among what the frames hold
  unfoldable pub choose_chapters : Id3Frames → Run (List (Chapter F))
  choose_chapters frames =
      let markers = parse_over_drive_markers frames.over_drive_markers in
      if ltb 0 (length frames.chapters)
      then clean_chapters parsing (in_seconds frames.chapters)
      else if ltb 0 (length markers)
      then clean_chapters parsing markers
      else (chapters_from_cue_sheet floats texts parsing frames.cue_sheet >>= λ parsed.
          clean_chapters parsing parsed)

  unfoldable pub id3_chapters : Resource → Run (List (Chapter F))
  id3_chapters r = read_id3_frames texts r >>= λ frames. choose_chapters frames

  abbrev pub timecode_seconds : Option F → Option F → Option F → Option F
  timecode_seconds (some h) (some m) (some s) = some (
      parsing.plus
        (parsing.plus (floats.times h (floats.from_ℕ 3600)) (floats.times m (floats.from_ℕ 60))) s)
  timecode_seconds (some h) (some m) none = none
  timecode_seconds (some h) none s = none
  timecode_seconds none m s = none

  unfoldable pub parse_timecode : Bytes → Run (Option F)
  parse_timecode s =
      let parts = split b':' (texts.trim_space s) in
      if not (length parts == 3) then done none else do
        h ← entry parts 0
        m ← entry parts 1
        sec ← entry parts 2
        done (
            timecode_seconds (parsing.parse_float h) (parsing.parse_float m)
              (parsing.parse_float sec))

  abbrev pub chapter_name : List (Bytes × Option Bytes) → Bytes → Bytes
  chapter_name raw number =
      let name = raw_text raw (upper_chapter ++ number ++ upper_name) in
      if length name == 0 then raw_text raw (text_chapter ++ number ++ text_name) else name

  -- the round of the loop of vorbisChapters: `none` is a key that is passed over
  unfoldable pub vorbis_round :
      List (Bytes × Option Bytes) → Bytes × Option Bytes → Run (Option (IdxChapter F))
  vorbis_round raw (key, value) = elim (chapter_number (texts.to_lower key)) [
    | none ↦ done none
    | some number ↦ elim value [
      | none ↦ done none
      | some timecode ↦ do
        start ← parse_timecode timecode
        done (elim start [
          | none ↦ none
          | some seconds ↦ some (record {
            index = (parsing.atoi number).0;
            entry = record { title = texts.trim_space (chapter_name raw number); start = seconds };
          })
        ])
    ]
  ]

  unfoldable pub vorbis_loop :
      List (Bytes × Option Bytes) → List (Bytes × Option Bytes) → Run (List (IdxChapter F))
  vorbis_loop raw [] = done []
  vorbis_loop raw (tag ∷ tags) = do
    found ← vorbis_round raw tag
    rest ← vorbis_loop raw tags
    done (elim found [ none ↦ rest | some c ↦ c ∷ rest ])

  abbrev pub entries_of : List (IdxChapter F) → List (Chapter F)
  entries_of [] = []
  entries_of (c ∷ cs) = c.entry ∷ entries_of cs

  unfoldable pub vorbis_chapters : RawTags → Run (List (Chapter F))
  vorbis_chapters none = done []
  vorbis_chapters (some raw) =
      vorbis_loop raw raw >>= λ found. done (entries_of (parsing.sort_by_index found))
