-- ===== src/Audio/Chapters/Cue.antt =====
-- pkg/parser/audio/playlist.go: parseCUE, which reads the tracks of a cue sheet line by line, and
-- chaptersFromCueSheet of id3chapters.go.
use go_toolkit.Prelude.{
  ℕ, ◌+◌, Bool, true, false, not, ◌&&◌, Option, none, some, List, [], ◌∷◌, ◌++◌, ltb, ◌==◌,
  if◌then◌else◌, Bytes, length,
}
use go_toolkit.Prelude.Int.{ℤ, pos, negsuc}
use go_toolkit.Prelude.Panic.{Run, done, ◌>>=◌, checked_slice, index}
use go_toolkit.Audio.Durations.Decoding.{Floats, equal_bytes, entry}
use go_toolkit.Audio.Durations.Ogg.{index_of}
use go_toolkit.Audio.Id3.TextFrames.{Texts, index_byte}
use go_toolkit.Audio.Chapters.{Chapter, Parsing, split}

pub record PlaylistEntry (F : Type 0) : Type 0 where
  pub path : Bytes
  pub title : Bytes
  pub start : F

-- the variables of parseCUE
pub record CueState (F : Type 0) : Type 0 where
  pub entries : List (PlaylistEntry F)
  pub current_file : Bytes
  pub in_track : Bool
  pub title : Bytes
  pub start : F
  pub has_start : Bool

-- strings.TrimSuffix(raw, "\r")
unfoldable pub trim_return : Bytes → Bytes
trim_return [] = []
trim_return (b ∷ []) = if b == 13 then [] else b ∷ []
trim_return (b ∷ c ∷ bs) = b ∷ trim_return (c ∷ bs)

-- strings.Cut(line, " "), without the last result
unfoldable pub cut_space : Bytes → Bytes × Bytes
cut_space [] = ([], [])
cut_space (b ∷ bs) = let rest = cut_space bs in if b == b' ' then ([], bs) else (b ∷ rest.0, rest.1)

abbrev pub is_number : ℤ → ℕ → Bool
is_number (pos n) k = n == k
is_number (negsuc n) k = false

abbrev pub text_file : Bytes
text_file = b'F' ∷ b'I' ∷ b'L' ∷ b'E' ∷ []

abbrev pub text_track : Bytes
text_track = b'T' ∷ b'R' ∷ b'A' ∷ b'C' ∷ b'K' ∷ []

abbrev pub text_title : Bytes
text_title = b'T' ∷ b'I' ∷ b'T' ∷ b'L' ∷ b'E' ∷ []

abbrev pub text_index : Bytes
text_index = b'I' ∷ b'N' ∷ b'D' ∷ b'E' ∷ b'X' ∷ []

-- FILE "self" MP3, and the end of the line
abbrev pub self_line : Bytes
self_line =
    text_file ++ (b' ' ∷ 34 ∷ b's' ∷ b'e' ∷ b'l' ∷ b'f' ∷ 34 ∷ b' ' ∷ b'M' ∷ b'P' ∷ b'3' ∷ 10 ∷ [])

-- the text between the quotes that a value opens with, if they are closed
unfoldable pub quoted : Bytes → Run (Option Bytes)
quoted s = if ltb (length s) 2 then done none else do
  b0 ← index s 0
  elim (b0 == 34) [
    | false ↦ done none
    | true ↦ do
      rest ← checked_slice s 1 (length s)
      elim (index_byte rest 34) [
        | none ↦ done none
        | some end ↦ do value ← checked_slice s 1 (1 + end); done (some value)
      ]
  ]

unfoldable pub first_of : Bytes → Run Bytes
first_of s = elim (index_byte s b' ') [ none ↦ done s | some i ↦ checked_slice s 0 i ]

module _ {F : Type 0} (floats : Floats F) (texts : Texts) (parsing : Parsing F) where
  unfoldable pub cue_value : Bytes → Bool → Run Bytes
  cue_value s first_token = do
    let t = texts.trim_space s
    value ← quoted t
    elim value [ some v ↦ done v | none ↦ if first_token then first_of t else done t ]

  -- the three numbers of a time code, where Atoi reports no error
  abbrev pub cue_seconds : ℤ × Bool → ℤ × Bool → ℤ × Bool → Option F
  cue_seconds m s f =
      if m.1 && s.1 && f.1
      then some (
          parsing.plus
            (parsing.plus (floats.times (parsing.from_ℤ m.0) (floats.from_ℕ 60))
              (parsing.from_ℤ s.0))
            (floats.over (parsing.from_ℤ f.0) (floats.from_ℕ 75)))
      else none

  unfoldable pub parse_cue_time : Bytes → Run (Option F)
  parse_cue_time s =
      let parts = split b':' s in
      if not (length parts == 3) then done none else do
        mm ← entry parts 0
        ss ← entry parts 1
        ff ← entry parts 2
        done (cue_seconds (parsing.atoi mm) (parsing.atoi ss) (parsing.atoi ff))

  unfoldable pub cue_index : Bytes → Run (Option (ℤ × F))
  cue_index rest =
      let fs = parsing.fields rest in
      if ltb (length fs) 2 then done none else do
        f0 ← entry fs 0
        let num = parsing.atoi f0
        elim num.1 [
          | false ↦ done none
          | true ↦ do
            f1 ← entry fs 1
            t ← parse_cue_time f1
            done (elim t [ none ↦ none | some seconds ↦ some (num.0, seconds) ])
        ]

  unfoldable pub flush : CueState F → CueState F
  flush st =
      let e : PlaylistEntry F = record {
        path = st.current_file;
        title = st.title;
        start = st.start;
      } in
      record {
        entries =
            if st.in_track && ltb 0 (length st.current_file)
            then st.entries ++ (e ∷ [])
            else st.entries;
        current_file = st.current_file;
        in_track = false;
        title = [];
        start = floats.from_ℕ 0;
        has_start = false;
      }

  -- INDEX 01 is the start; INDEX 00 is a fallback
  unfoldable pub set_start : Option (ℤ × F) → CueState F → CueState F
  set_start none st = st
  set_start (some (num, t)) st =
      if is_number num 1
      then record st { start = t; has_start = true }
      else if is_number num 0 && not st.has_start
      then record st { start = t }
      else st

  -- the switch on the keyword, in upper case
  unfoldable pub cue_keyword : Bytes → Bytes → CueState F → Run (CueState F)
  cue_keyword keyword rest st =
      if equal_bytes keyword text_file
      then (cue_value rest true >>= λ file. done (record (flush st) { current_file = file }))
      else if equal_bytes keyword text_track
      then done (record (flush st) { in_track = true })
      else if equal_bytes keyword text_title && st.in_track
      then (cue_value rest false >>= λ title. done (record st { title = title }))
      else if equal_bytes keyword text_index && st.in_track
      then (cue_index rest >>= λ found. done (set_start found st))
      else done st

  unfoldable pub cue_line : Bytes → CueState F → Run (CueState F)
  cue_line raw st =
      let line = texts.trim_space (trim_return raw) in
      let words = cut_space line in
      if length line == 0 then done st else cue_keyword (parsing.to_upper words.0) words.1 st

  unfoldable pub cue_lines : List Bytes → CueState F → Run (CueState F)
  cue_lines [] st = done st
  cue_lines (raw ∷ raws) st = cue_line raw st >>= λ st'. cue_lines raws st'

  unfoldable pub parse_cue : Bytes → Run (List (PlaylistEntry F))
  parse_cue content = do
    st ← cue_lines (split 10 content) (record {
      entries = [];
      current_file = [];
      in_track = false;
      title = [];
      start = floats.from_ℕ 0;
      has_start = false;
    })
    done (flush st).entries

  abbrev pub to_chapters : List (PlaylistEntry F) → List (Chapter F)
  to_chapters [] = []
  to_chapters (e ∷ es) =
      record { title = texts.trim_space e.title; start = e.start } ∷ to_chapters es

  -- a sheet that names no FILE gets one
  abbrev pub with_file : Bytes → Bytes
  with_file value = elim (index_of (parsing.to_upper value) (text_file ++ (b' ' ∷ []))) [
    | none ↦ self_line ++ value
    | some i ↦ value
  ]

  unfoldable pub chapters_from_cue_sheet : Bytes → Run (List (Chapter F))
  chapters_from_cue_sheet value =
      if length (texts.trim_space value) == 0
      then done []
      else (parse_cue (with_file value) >>= λ parsed. done (to_chapters parsed))
