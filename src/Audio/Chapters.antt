-- ===== src/Audio/Chapters.antt =====
-- pkg/parser/audio: the chapters that an audio file carries, by id3chapters.go, toc.go and playlist.go.
-- A text is its bytes.
pub mod Cue
pub mod Embedded
pub mod Totality
use go_toolkit.Prelude.{
  ℕ, zero, suc, ◌-◌, Bool, List, [], ◌∷◌, ◌++◌, ltb, ◌==◌, if◌then◌else◌, Bytes, length, take,
  Option,
}
use go_toolkit.Prelude.Int.{ℤ}
use go_toolkit.Prelude.Panic.{Run, done, ◌>>=◌}
use go_toolkit.Audio.Durations.Decoding.{entry}

pub record Chapter (F : Type 0) : Type 0 where
  pub title : Bytes
  pub start : F

-- a chapter with the number in its key
pub record IdxChapter (F : Type 0) : Type 0 where
  pub index : ℤ
  pub entry : Chapter F

-- what the parsers call: strings.ToUpper and Fields, strconv.Atoi (the number, and whether there is no
-- error) and ParseFloat, xml.Unmarshal into the name and the time of each marker, the two sorts, and
-- operations of float64
pub record Parsing (F : Type 0) : Type 0 where
  pub to_upper : Bytes → Bytes
  pub fields : Bytes → List Bytes
  pub atoi : Bytes → ℤ × Bool
  pub parse_float : Bytes → Option F
  pub unmarshal_markers : Bytes → Option (List (Bytes × Bytes))
  pub sort_by_start : List (Chapter F) → List (Chapter F)
  pub sort_by_index : List (IdxChapter F) → List (IdxChapter F)
  pub from_ℤ : ℤ → F
  pub plus : F → F → F
  pub equal : F → F → Bool

-- puts a byte in front of the first part
abbrev pub extend : ℕ → List Bytes → List Bytes
extend b [] = (b ∷ []) ∷ []
extend b (part ∷ parts) = (b ∷ part) ∷ parts

-- strings.Split for a separator of one byte
unfoldable pub split : ℕ → Bytes → List Bytes
split sep [] = [] ∷ []
split sep (b ∷ bs) = let parts = split sep bs in if b == sep then [] ∷ parts else extend b parts

module _ {F : Type 0} (parsing : Parsing F) where
  -- the round of the loop of cleanChapters
  unfoldable pub clean_round : List (Chapter F) → Chapter F → Run (List (Chapter F))
  clean_round cleaned e =
      if ltb 0 (length cleaned)
      then (do
        last ← entry cleaned (length cleaned - 1)
        done (
            if parsing.equal last.start e.start
            then take (length cleaned - 1) cleaned ++ (e ∷ [])
            else cleaned ++ (e ∷ [])))
      else done (cleaned ++ (e ∷ []))

  unfoldable pub clean_loop : List (Chapter F) → List (Chapter F) → Run (List (Chapter F))
  clean_loop cleaned [] = done cleaned
  clean_loop cleaned (e ∷ es) = do next ← clean_round cleaned e; clean_loop next es

  unfoldable pub clean_chapters : List (Chapter F) → Run (List (Chapter F))
  clean_chapters entries =
      if length entries == 0 then done [] else clean_loop [] (parsing.sort_by_start entries)
