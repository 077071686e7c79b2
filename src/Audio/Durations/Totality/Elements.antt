-- ===== src/Audio/Durations/Totality/Elements.antt =====
-- pkg/parser/audio/duration_formats.go: the walk over EBML elements ends within its fuel.
use go_toolkit.Prelude.{
  ℕ, zero, suc, ◌+◌, ◌/◌, ◌%◌, ◌≤◌, ◌<◌, inl, inr, min, ◌||◌, [], ◌∷◌, ltb, ◌==◌, Bytes, length,
  slice, length-slice, arith, Bool-cases, ltb→lt,
}
use go_toolkit.Prelude.Panic.{Run, done, Ends, Ends-bind, checked_slice-done}
use go_toolkit.Audio.Durations.Decoding.{Floats}
use go_toolkit.Audio.Durations.Webm.{
  Info, ebml_segment, ebml_info, ebml_timecode_scale, ebml_duration, mask_loop, ebml_read_id,
  ebml_read_size, ebml_element, walk_loop, walk,
}
use go_toolkit.Audio.Durations.Totality.{Returns, then-Returns}

-- the lengths that ebmlReadID and ebmlReadSize return lie within what they were given
ebml_read_id_bounded : (b : Bytes) → Ends (λ x. x.1 ≤ length b) (ebml_read_id b)
unfolding ebml_read_id
ebml_read_id_bounded [] = omega arith
ebml_read_id_bounded (b0 ∷ bs) =
    let size = (mask_loop 8 b0 128 1).0 in
    elim (Bool-cases (b0 == 0 || ltb 4 size || ltb (length (b0 ∷ bs)) size)) [
      | inl bad ↦ rw bad (omega arith)
      | inr good ↦
          let fits : size ≤ length (b0 ∷ bs) = ground (arith, good) in
          rw (good, checked_slice-done (b0 ∷ bs) 0 size (omega arith) fits) fits
    ]

mask_loop_pos : (rounds b mask size : ℕ) → 1 ≤ size → 1 ≤ (mask_loop rounds b mask size).0
unfolding mask_loop
mask_loop_pos zero b mask size h = h
mask_loop_pos (suc rounds) b mask size h = elim (Bool-cases (b / mask % 2 == 1)) [
  | inl found ↦ rw found h
  | inr next ↦ rw next (mask_loop_pos rounds b (mask / 2) (size + 1) (omega arith))
]

ebml_read_size_bounded : (b : Bytes) → Ends (λ x. x.1 ≤ length b) (ebml_read_size b)
unfolding ebml_read_size
ebml_read_size_bounded [] = omega arith
ebml_read_size_bounded (b0 ∷ bs) =
    let size = (mask_loop 8 b0 128 1).0 in
    elim (Bool-cases (b0 == 0 || ltb 8 size || ltb (length (b0 ∷ bs)) size)) [
      | inl bad ↦ rw bad (omega arith)
      | inr good ↦
          let fits : size ≤ length (b0 ∷ bs) = ground (arith, good) in
          let one = mask_loop_pos 8 b0 128 1 (omega arith) in
          rw (good, checked_slice-done (b0 ∷ bs) 1 size one fits) fits
    ]

module _ {F : Type 0} (floats : Floats F) where
  ebml_element-Returns :
      (inner : Bytes → Info F → Run (Info F)) (id : ℕ) (payload : Bytes) (st : Info F)
      → ((b : Bytes) (s : Info F) → Returns (inner b s))
      → Returns (ebml_element floats inner id payload st)
  unfolding ebml_element
  ebml_element-Returns inner id payload st inside =
      elim (Bool-cases (id == ebml_segment || id == ebml_info)) [
        | inl master ↦ rw master (inside payload st)
        | inr other ↦ elim (Bool-cases (id == ebml_timecode_scale)) [
          | inl scale ↦ rw (other, scale) tt
          | inr third ↦ elim (Bool-cases (id == ebml_duration)) [
            | inl seconds ↦ rw (other, third, seconds) tt
            | inr last ↦ rw (other, third, last) tt
          ]
        ]
      ]

  walk_loop-Returns :
      (inner : Bytes → Info F → Run (Info F)) (fuel : ℕ) (b : Bytes) (pos : ℕ) (st : Info F)
      → ((c : Bytes) (s : Info F) → Returns (inner c s))
      → 0 < fuel
      → length b < pos + fuel
      → Returns (walk_loop floats inner fuel b pos st)
  unfolding walk_loop
  walk_loop-Returns inner zero b pos st inside p h = absurd (omega arith)
  walk_loop-Returns inner (suc fuel) b pos st inside p h = elim (Bool-cases (ltb pos (length b))) [
    | inr over ↦ rw (over, walk_loop) tt
    | inl more ↦
        let before = ltb→lt pos (length b) more in
        let at_id = slice b pos (length b) in
        rw (more, walk_loop, checked_slice-done b pos (length b) (omega arith) (omega arith))
          (Ends-bind (λ x. x.1 ≤ length at_id) _ (ebml_read_id at_id) _ (ebml_read_id_bounded at_id)
            (λ id id_fits. elim (Bool-cases (id.1 == 0)) [
              | inl bad ↦ rw bad tt
              | inr good ↦
                  let room = length-slice b pos (length b) in
                  let at_size = slice b (pos + id.1) (length b) in
                  rw
                    (good, checked_slice-done b (pos + id.1) (length b) (omega arith) (omega arith))
                    (Ends-bind (λ x. x.1 ≤ length at_size) _ (ebml_read_size at_size) _
                      (ebml_read_size_bounded at_size)
                      (λ size size_fits. elim (Bool-cases (size.1 == 0)) [
                        | inl none_read ↦ rw none_read tt
                        | inr read ↦
                            let left = length-slice b (pos + id.1) (length b) in
                            let body = pos + id.1 + size.1 in
                            let end = min (body + size.0) (length b) in
                            let moved : pos < end = ground (arith, good, read) in
                            rw (read, checked_slice-done b body end (omega arith) (omega arith))
                              (then-Returns (ebml_element floats inner id.0 (slice b body end) st) _
                                (ebml_element-Returns inner id.0 (slice b body end) st inside)
                                (λ st'.
                                  walk_loop-Returns inner fuel b end st' inside (omega arith)
                                    (omega arith)))
                      ]))
            ]))
  ]

  pub walk-Returns : (levels : ℕ) (b : Bytes) (st : Info F) → Returns (walk floats levels b st)
  unfolding walk
  walk-Returns zero b st =
      walk_loop-Returns (λ c s. done s) (suc (length b)) b 0 st (λ c s. tt) (omega arith)
        (omega arith)
  walk-Returns (suc levels) b st =
      walk_loop-Returns (walk floats levels) (suc (length b)) b 0 st (walk-Returns levels)
        (omega arith) (omega arith)
