-- ===== src/Audio/Id3/TextFrames.antt =====
-- pkg/parser/audio/id3chapters.go: the body of a frame for a text, and how a text is decoded. Where the
-- code compares `len` first, the index behind it is taken only then.
use go_toolkit.Prelude.{
  ℕ, zero, suc, ◌+◌, Bool, true, false, not, ◌&&◌, ◌||◌, Option, none, some, List, [], ◌∷◌, ltb,
  leb, ◌==◌, if◌then◌else◌, Bytes, length,
}
use go_toolkit.Prelude.Panic.{Run, done, panic, ◌>>=◌, checked_slice, index}
use go_toolkit.Audio.Durations.Decoding.{be_at, le_at}

-- conversions to a string of runes and of UTF-16 units, and strings.TrimRight(s, "\\x00"), TrimSpace
-- and ToLower
pub record Texts : Type 0 where
  pub from_runes : List ℕ → Bytes
  pub from_utf16 : List ℕ → Bytes
  pub trim_zeros : Bytes → Bytes
  pub trim_space : Bytes → Bytes
  pub to_lower : Bytes → Bytes

unfoldable pub index_byte : Bytes → ℕ → Option ℕ
index_byte [] c = none
index_byte (b ∷ bs) c =
    if b == c then some 0 else elim (index_byte bs c) [ none ↦ none | some i ↦ some (suc i) ]

unfoldable pub has_bom : Bytes → Run Bool
has_bom b =
    if leb 2 (length b)
    then (do
      b0 ← index b 0
      b1 ← index b 1
      done ((b0 == 255 && b1 == 254) || (b0 == 254 && b1 == 255)))
    else done false

-- `bomSource`: `bom_from` is empty for nil
unfoldable pub bom_source : ℕ → Bytes → Bytes → Run Bytes
bom_source encoding b bom_from =
    if encoding == 1
    then (do
      marked ← if ltb (length b) 2 then done false else has_bom b
      done (if not marked && leb 2 (length bom_from) then bom_from else b))
    else done b

-- whether the byte order is the little one
unfoldable pub is_little : ℕ → Bytes → Run Bool
is_little encoding source =
    if encoding == 1 && leb 2 (length source)
    then (do b0 ← index source 0; b1 ← index source 1; done (b0 == 255 && b1 == 254))
    else done false

unfoldable pub without_bom : Bytes → Run Bytes
without_bom b = do marked ← has_bom b; if marked then checked_slice b 2 (length b) else done b

-- the loop over the units, with fuel for its rounds
unfoldable pub units_loop : ℕ → Bool → Bytes → ℕ → Run (List ℕ)
units_loop zero little b i = panic
units_loop (suc fuel) little b i = elim (ltb (i + 1) (length b)) [
  | false ↦ done []
  | true ↦ do
    unit ← if little then le_at b i (i + 2) else be_at b i (i + 2)
    rest ← units_loop fuel little b (i + 2)
    done (unit ∷ rest)
]

-- the scan for two aligned zero bytes, with fuel for its rounds; `none` is -1
unfoldable pub cut_loop : ℕ → Bytes → ℕ → Run (Option ℕ)
cut_loop zero text i = panic
cut_loop (suc fuel) text i = elim (ltb (i + 1) (length text)) [
  | false ↦ done none
  | true ↦ do
    a ← index text i
    b ← index text (i + 1)
    elim (a == 0 && b == 0) [ true ↦ done (some i) | false ↦ cut_loop fuel text (i + 2) ]
]

module _ (texts : Texts) where
  unfoldable pub decode_utf16 : ℕ → Bytes → Bytes → Run Bytes
  decode_utf16 encoding b bom_from = do
    source ← bom_source encoding b bom_from
    little ← is_little encoding source
    body ← without_bom b
    units ← units_loop (suc (length body)) little body 0
    done (texts.trim_zeros (texts.from_utf16 units))

  unfoldable pub decode_id3_bytes : ℕ → Bytes → Bytes → Run Bytes
  decode_id3_bytes encoding b bom_from =
      if encoding == 0
      then done (texts.trim_zeros (texts.from_runes b))
      else if encoding == 1 || encoding == 2
      then decode_utf16 encoding b bom_from
      else done (texts.trim_zeros b)

  -- decodeID3Text of the first value
  unfoldable pub decode_id3_text : Bytes → Run Bytes
  decode_id3_text body = if length body == 0 then done [] else do
    encoding ← index body 0
    rest ← checked_slice body 1 (length body)
    text ← decode_id3_bytes encoding rest []
    elim (index_byte text 0) [ none ↦ done text | some i ↦ checked_slice text 0 i ]

  -- the description in front of the cut and the value from `from` on
  unfoldable pub decode_parts : ℕ → Bytes → ℕ → ℕ → Bool → Run (Bytes × Bytes)
  decode_parts encoding text cut from marks = do
    name ← checked_slice text 0 cut
    value ← checked_slice text from (length text)
    description ← decode_id3_bytes encoding name []
    content ← decode_id3_bytes encoding value (if marks then name else [])
    done (description, content)

  unfoldable pub parse_txxx_frame : Bytes → Run (Bytes × Bytes)
  parse_txxx_frame body = if ltb (length body) 2 then done ([], []) else do
    encoding ← index body 0
    text ← checked_slice body 1 (length body)
    elim (encoding == 1 || encoding == 2) [
      | true ↦ do
        cut ← cut_loop (suc (length text)) text 0
        elim cut [ none ↦ done ([], []) | some i ↦ decode_parts encoding text i (i + 2) true ]
      | false ↦ elim (index_byte text 0) [
        | none ↦ done ([], [])
        | some i ↦ decode_parts encoding text i (i + 1) false
      ]
    ]
