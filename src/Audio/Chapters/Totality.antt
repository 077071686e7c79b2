-- ===== src/Audio/Chapters/Totality.antt =====
-- pkg/parser/audio: the parsers of chapters return, whatever the tags hold.
use go_toolkit.Prelude.{
  ℕ, ◌+◌, ◌-◌, ◌<◌, inl, inr, Bool, true, false, not, ◌&&◌, Option, none, some, List, [], ◌∷◌, ltb,
  ◌==◌, Bytes, length, arith, Bool-cases, Option-cases, ltb→le, ltb→lt, get_elem-below,
  length-slice, ◌≡◌,
}
use go_toolkit.Prelude.Panic.{done, ◌>>=◌, checked_slice, index, checked_slice-done, Ends-bind}
use go_toolkit.Fetcher.Resource.{Resource}
use go_toolkit.Audio.Durations.Decoding.{Floats, equal_bytes, entry}
use go_toolkit.Audio.Durations.Totality.{
  Returns, then-Returns, if_Returns, index-Returns, slice-Returns,
}
use go_toolkit.Audio.Id3.TextFrames.{Texts, index_byte}
use go_toolkit.Audio.Id3.TextTotality.{index_byte-below}
use go_toolkit.Audio.Id3.Windows.{Id3Frames, read_id3_frames}
use go_toolkit.Audio.Id3.Totality.{read_id3_frames-Returns}
use go_toolkit.Audio.Chapters.{Chapter, Parsing, split, clean_round, clean_loop, clean_chapters}
use go_toolkit.Audio.Chapters.Cue.{
  CueState, text_file, text_track, text_title, text_index, trim_return, cut_space, quoted, first_of,
  cue_value, parse_cue_time, cue_index, cue_keyword, cue_line, cue_lines, parse_cue, with_file,
  chapters_from_cue_sheet,
}
use go_toolkit.Audio.Chapters.Embedded.{
  RawTags, chapter_number, parse_over_drive_markers, in_seconds, choose_chapters, id3_chapters,
  parse_timecode, vorbis_round, vorbis_loop, vorbis_chapters,
}

entry-Returns {ℓ} : {A : Type ℓ} (xs : List A) (i : ℕ) → i < length xs → Returns (entry xs i)
unfolding entry
entry-Returns xs i h = let x = get_elem-below xs i h in rw (entry, x.1) tt

-- the three parts that a time code is split into
parts-Returns :
    {B : Type 0} (parts : List Bytes) (f : Bytes → Bytes → Bytes → B)
    → not (length parts == 3) ≡ false
    → Returns (do a ← entry parts 0; b ← entry parts 1; c ← entry parts 2; done (f a b c))
parts-Returns parts f e =
    let three : length parts ≡ 3 = ground (arith, e) in
    then-Returns (entry parts 0) _ (entry-Returns parts 0 (omega arith)) (λ a.
      then-Returns (entry parts 1) _ (entry-Returns parts 1 (omega arith))
        (λ b. then-Returns (entry parts 2) _ (entry-Returns parts 2 (omega arith)) (λ c. tt)))

quoted-Returns : (s : Bytes) → Returns (quoted s)
unfolding quoted
quoted-Returns s =
    if_Returns (ltb (length s) 2) _ _ (λ e. tt)
      (λ e.
        let long = ltb→le (length s) 2 e in
        then-Returns (index s 0) _ (index-Returns s 0 (omega arith)) (λ b0.
          elim (Bool-cases (b0 == 34)) [
            | inr plain ↦ rw plain tt
            | inl opened ↦ rw opened (
                Ends-bind (λ rest. length rest ≡ length s - 1) _ (checked_slice s 1 (length s)) _
                  (rw (checked_slice-done s 1 (length s) (omega arith) (omega arith))
                    (omega (arith, length-slice s 1 (length s))))
                  (λ rest size. elim (Option-cases (index_byte rest 34)) [
                    | inl unclosed ↦ rw unclosed tt
                    | inr (end, found) ↦
                        let below = index_byte-below rest 34 end found in
                        rw found (
                          then-Returns (checked_slice s 1 (1 + end)) _
                            (slice-Returns s 1 (1 + end) (omega arith) (omega arith)) (λ value. tt))
                  ]))
          ]))

first_of-Returns : (s : Bytes) → Returns (first_of s)
unfolding first_of
first_of-Returns s = elim (Option-cases (index_byte s b' ')) [
  | inl whole ↦ rw (whole, first_of) tt
  | inr (i, found) ↦
      let below = index_byte-below s b' ' i found in
      rw (found, first_of) (slice-Returns s 0 i (omega arith) (omega arith))
]

module _ {F : Type 0} (parsing : Parsing F) where
  clean_round-Returns :
      (cleaned : List (Chapter F)) (e : Chapter F) → Returns (clean_round parsing cleaned e)
  unfolding clean_round
  clean_round-Returns cleaned e =
      if_Returns (ltb 0 (length cleaned)) _ _
        (λ h.
          let some_chapter = ltb→lt 0 (length cleaned) h in
          then-Returns (entry cleaned (length cleaned - 1)) _
            (entry-Returns cleaned (length cleaned - 1) (omega arith)) (λ last. tt))
        (λ h. tt)

  clean_loop-Returns : (cleaned es : List (Chapter F)) → Returns (clean_loop parsing cleaned es)
  unfolding clean_loop
  clean_loop-Returns cleaned [] = tt
  clean_loop-Returns cleaned (e ∷ es) =
      then-Returns (clean_round parsing cleaned e) _ (clean_round-Returns cleaned e)
        (λ next. clean_loop-Returns next es)

  clean_chapters-Returns : (es : List (Chapter F)) → Returns (clean_chapters parsing es)
  unfolding clean_chapters
  clean_chapters-Returns es =
      if_Returns (length es == 0) _ _ (λ e. tt)
        (λ e. clean_loop-Returns [] (parsing.sort_by_start es))

module _ {F : Type 0} (floats : Floats F) (texts : Texts) (parsing : Parsing F) where
  cue_value-Returns : (s : Bytes) (first : Bool) → Returns (cue_value floats texts parsing s first)
  unfolding cue_value
  cue_value-Returns s first =
      then-Returns (quoted (texts.trim_space s)) _ (quoted-Returns (texts.trim_space s)) (λ value.
        elim (Option-cases value) [
          | inr (v, found) ↦ rw found tt
          | inl missing ↦
              rw missing
                (if_Returns first _ _ (λ e. first_of-Returns (texts.trim_space s)) (λ e. tt))
        ])

  parse_cue_time-Returns : (s : Bytes) → Returns (parse_cue_time floats texts parsing s)
  unfolding parse_cue_time
  parse_cue_time-Returns s =
      if_Returns (not (length (split b':' s) == 3)) _ _ (λ e. tt)
        (λ e. parts-Returns (split b':' s) _ e)

  cue_index-Returns : (rest : Bytes) → Returns (cue_index floats texts parsing rest)
  unfolding cue_index
  cue_index-Returns rest =
      let fs = parsing.fields rest in
      if_Returns (ltb (length fs) 2) _ _ (λ e. tt)
        (λ e.
          let two = ltb→le (length fs) 2 e in
          then-Returns (entry fs 0) _ (entry-Returns fs 0 (omega arith)) (λ f0.
            elim (Bool-cases (parsing.atoi f0).1) [
              | inr failed ↦ rw failed tt
              | inl read ↦ rw read (
                  then-Returns (entry fs 1) _ (entry-Returns fs 1 (omega arith)) (λ f1.
                    then-Returns (parse_cue_time floats texts parsing f1) _
                      (parse_cue_time-Returns f1) (λ t. tt)))
            ]))

  cue_keyword-Returns :
      (keyword rest : Bytes) (st : CueState F)
      → Returns (cue_keyword floats texts parsing keyword rest st)
  unfolding cue_keyword
  cue_keyword-Returns keyword rest st =
      if_Returns (equal_bytes keyword text_file) _ _
        (λ e.
          then-Returns (cue_value floats texts parsing rest true) _ (cue_value-Returns rest true)
            (λ file. tt))
        (λ e.
          if_Returns (equal_bytes keyword text_track) _ _ (λ z. tt)
            (λ z.
              if_Returns (equal_bytes keyword text_title && st.in_track) _ _
                (λ y.
                  then-Returns (cue_value floats texts parsing rest false) _
                    (cue_value-Returns rest false) (λ title. tt))
                (λ y.
                  if_Returns (equal_bytes keyword text_index && st.in_track) _ _
                    (λ x.
                      then-Returns (cue_index floats texts parsing rest) _ (cue_index-Returns rest)
                        (λ found. tt))
                    (λ x. tt))))

  cue_lines-Returns :
      (lines : List Bytes) (st : CueState F) → Returns (cue_lines floats texts parsing lines st)
  unfolding cue_lines cue_line
  cue_lines-Returns [] st = tt
  cue_lines-Returns (raw ∷ raws) st =
      let line = texts.trim_space (trim_return raw) in
      then-Returns (cue_line floats texts parsing raw st) _
        (if_Returns (length line == 0) _ _ (λ e. tt)
          (λ e. cue_keyword-Returns (parsing.to_upper (cut_space line).0) (cut_space line).1 st))
        (λ st'. cue_lines-Returns raws st')

  parse_cue-Returns : (content : Bytes) → Returns (parse_cue floats texts parsing content)
  unfolding parse_cue
  parse_cue-Returns content =
      then-Returns (cue_lines floats texts parsing (split 10 content) _) _
        (cue_lines-Returns (split 10 content) _) (λ st. tt)

  chapters_from_cue_sheet-Returns :
      (value : Bytes) → Returns (chapters_from_cue_sheet floats texts parsing value)
  unfolding chapters_from_cue_sheet
  chapters_from_cue_sheet-Returns value =
      if_Returns (length (texts.trim_space value) == 0) _ _ (λ e. tt)
        (λ e.
          then-Returns (parse_cue floats texts parsing (with_file floats texts parsing value)) _
            (parse_cue-Returns (with_file floats texts parsing value)) (λ parsed. tt))

  choose_chapters-Returns :
      (frames : Id3Frames) → Returns (choose_chapters floats texts parsing frames)
  unfolding choose_chapters
  choose_chapters-Returns frames =
      let markers = parse_over_drive_markers floats texts parsing frames.over_drive_markers in
      if_Returns (ltb 0 (length frames.chapters)) _ _
        (λ e. clean_chapters-Returns parsing (in_seconds floats texts parsing frames.chapters))
        (λ e.
          if_Returns (ltb 0 (length markers)) _ _ (λ z. clean_chapters-Returns parsing markers)
            (λ z.
              then-Returns (chapters_from_cue_sheet floats texts parsing frames.cue_sheet) _
                (chapters_from_cue_sheet-Returns frames.cue_sheet)
                (λ parsed. clean_chapters-Returns parsing parsed)))

  pub id3_chapters-Returns : (r : Resource) → Returns (id3_chapters floats texts parsing r)
  unfolding id3_chapters
  id3_chapters-Returns r =
      then-Returns (read_id3_frames texts r) _ (read_id3_frames-Returns texts r)
        (λ frames. choose_chapters-Returns frames)

  parse_timecode-Returns : (s : Bytes) → Returns (parse_timecode floats texts parsing s)
  unfolding parse_timecode
  parse_timecode-Returns s =
      let parts = split b':' (texts.trim_space s) in
      if_Returns (not (length parts == 3)) _ _ (λ e. tt) (λ e. parts-Returns parts _ e)

  vorbis_round-Returns :
      (raw : List (Bytes × Option Bytes)) (tag : Bytes × Option Bytes)
      → Returns (vorbis_round floats texts parsing raw tag)
  unfolding vorbis_round
  vorbis_round-Returns raw (key, none) = elim (Option-cases (chapter_number (texts.to_lower key))) [
    | inl other ↦ rw (other, vorbis_round) tt
    | inr (number, found) ↦ rw (found, vorbis_round) tt
  ]
  vorbis_round-Returns raw (key, some timecode) =
      elim (Option-cases (chapter_number (texts.to_lower key))) [
        | inl other ↦ rw (other, vorbis_round) tt
        | inr (number, found) ↦
            rw (found, vorbis_round)
              (then-Returns (parse_timecode floats texts parsing timecode) _
                (parse_timecode-Returns timecode) (λ start. tt))
      ]

  vorbis_loop-Returns :
      (raw tags : List (Bytes × Option Bytes)) → Returns (vorbis_loop floats texts parsing raw tags)
  unfolding vorbis_loop
  vorbis_loop-Returns raw [] = tt
  vorbis_loop-Returns raw (tag ∷ tags) =
      then-Returns (vorbis_round floats texts parsing raw tag) _ (vorbis_round-Returns raw tag)
        (λ found.
          then-Returns (vorbis_loop floats texts parsing raw tags) _ (vorbis_loop-Returns raw tags)
            (λ rest. tt))

  pub vorbis_chapters-Returns :
      (tags : RawTags) → Returns (vorbis_chapters floats texts parsing tags)
  unfolding vorbis_chapters
  vorbis_chapters-Returns none = tt
  vorbis_chapters-Returns (some raw) =
      then-Returns (vorbis_loop floats texts parsing raw raw) _ (vorbis_loop-Returns raw raw)
        (λ found. tt)
