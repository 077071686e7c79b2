-- ===== src/Audio/Durations/Webm.antt =====
-- pkg/parser/audio/duration_formats.go: the duration of a WebM file, whose EBML elements are walked.
use go_toolkit.Prelude.{
  ℕ, zero, suc, ◌+◌, ◌*◌, ◌/◌, ◌%◌, min, true, false, not, ◌||◌, [], ◌∷◌, ltb, ◌==◌, if◌then◌else◌,
  Bytes, length,
}
use go_toolkit.Prelude.Panic.{Run, done, panic, ◌>>=◌, checked_slice}
use go_toolkit.Fetcher.Resource.{Resource}
use go_toolkit.Audio.Durations.Decoding.{Floats, from_be, has_prefix, read_range}

-- the loop over the mask, for the eight rounds after which it is 0; the length and the mask
unfoldable pub mask_loop : ℕ → ℕ → ℕ → ℕ → ℕ × ℕ
mask_loop zero b mask size = (size, mask)
mask_loop (suc rounds) b mask size =
    let rest = mask_loop rounds b (mask / 2) (size + 1) in
    if b / mask % 2 == 1 then (size, mask) else rest

-- `id<<8 | uint64(b)` in uint64
unfoldable pub shift_in : ℕ → Bytes → ℕ
shift_in v [] = v
shift_in v (b ∷ bs) = shift_in (v * 256 % 18446744073709551616 + b) bs

-- ebmlReadID: the id, and its length or 0
unfoldable pub ebml_read_id : Bytes → Run (ℕ × ℕ)
ebml_read_id [] = done (0, 0)
ebml_read_id (b0 ∷ bs) =
    let size = (mask_loop 8 b0 128 1).0 in
    if b0 == 0 || ltb 4 size || ltb (length (b0 ∷ bs)) size
    then done (0, 0)
    else (checked_slice (b0 ∷ bs) 0 size >>= λ s. done (shift_in 0 s, size))

-- ebmlReadSize: the value without the marker, and its length or 0; the value -1 of an error is 0 here
unfoldable pub ebml_read_size : Bytes → Run (ℕ × ℕ)
ebml_read_size [] = done (0, 0)
ebml_read_size (b0 ∷ bs) =
    let size = (mask_loop 8 b0 128 1).0 in
    let mask = (mask_loop 8 b0 128 1).1 in
    if b0 == 0 || ltb 8 size || ltb (length (b0 ∷ bs)) size
    then done (0, 0)
    else (checked_slice (b0 ∷ bs) 1 size >>= λ s. done (shift_in (b0 % mask) s, size))

abbrev pub ebml_segment : ℕ
ebml_segment = 408125543

abbrev pub ebml_info : ℕ
ebml_info = 357149030

abbrev pub ebml_timecode_scale : ℕ
ebml_timecode_scale = 2807729

abbrev pub ebml_duration : ℕ
ebml_duration = 17545

abbrev pub ebml_magic : Bytes
ebml_magic = 26 ∷ 69 ∷ 223 ∷ 163 ∷ []

-- the variables that walk assigns
pub record Info (F : Type 0) : Type 0 where
  pub timecode_scale : ℕ
  pub duration : F

module _ {F : Type 0} (floats : Floats F) where
  unfoldable pub ebml_read_float : Bytes → F
  ebml_read_float b =
      if length b == 4
      then floats.from_bits32 (from_be 0 b)
      else if length b == 8
      then floats.from_bits64 (from_be 0 b)
      else floats.from_ℕ 0

  -- the cases of the switch on the id; `inner` walks the children of a master element
  unfoldable pub ebml_element : (Bytes → Info F → Run (Info F)) → ℕ → Bytes → Info F → Run (Info F)
  ebml_element inner id payload st =
      if id == ebml_segment || id == ebml_info
      then inner payload st
      else if id == ebml_timecode_scale
      then done (record st { timecode_scale = shift_in 0 payload })
      else if id == ebml_duration
      then done (record st { duration = ebml_read_float payload })
      else done st

  -- the loop of walk from `pos` on, with fuel for its rounds
  unfoldable pub walk_loop : (Bytes → Info F → Run (Info F)) → ℕ → Bytes → ℕ → Info F → Run (Info F)
  walk_loop inner zero b pos st = panic
  walk_loop inner (suc fuel) b pos st = elim (ltb pos (length b)) [
    | false ↦ done st
    | true ↦ do
      at_id ← checked_slice b pos (length b)
      id ← ebml_read_id at_id
      elim (id.1 == 0) [
        | true ↦ done st
        | false ↦ do
          at_size ← checked_slice b (pos + id.1) (length b)
          size ← ebml_read_size at_size
          elim (size.1 == 0) [
            | true ↦ done st
            | false ↦ do
              let body = pos + id.1 + size.1
              let end = min (body + size.0) (length b)
              payload ← checked_slice b body end
              st' ← ebml_element inner id.0 payload st
              walk_loop inner fuel b end st'
          ]
      ]
  ]

  -- walk, with the number of levels that may still be entered
  unfoldable pub walk : ℕ → Bytes → Info F → Run (Info F)
  walk zero b st = walk_loop (λ c s. done s) (suc (length b)) b 0 st
  walk (suc levels) b st = walk_loop (walk levels) (suc (length b)) b 0 st

  unfoldable pub probe_webm_duration : Resource → ℕ → Run F
  probe_webm_duration r size =
      let buf = read_range r 0 (min 1048576 size) in
      let f = floats.from_ℕ in
      if ltb (length buf) 4 || not (has_prefix buf ebml_magic) then done (f 0) else do
        st ← walk 3 buf (record { timecode_scale = 1000000; duration = f 0 })
        done (
            if floats.at_most st.duration (f 0)
            then f 0
            else floats.over (floats.times st.duration (f st.timecode_scale)) (f 1000000000))
