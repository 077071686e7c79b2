-- ===== src/Audio/Id3/TextTotality.antt =====
-- pkg/parser/audio/id3chapters.go: decoding a text and parsing a frame for one returns.
use go_toolkit.Prelude.{
  ℕ, zero, suc, ◌+◌, ◌≤◌, ◌<◌, ◌≡◌, inl, inr, Bool, true, false, ◌&&◌, ◌||◌, Option, none, some, [],
  ◌∷◌, ltb, leb, ◌==◌, if◌then◌else◌, Bytes, length, arith, Bool-cases, Option-cases, ltb→le,
  leb→le, ltb→lt,
}
use go_toolkit.Prelude.Panic.{done, checked_slice, index, Ends, Ends-bind}
use go_toolkit.Audio.Durations.Decoding.{be_at, le_at}
use go_toolkit.Audio.Durations.Totality.{
  Returns, then-Returns, if_Returns, index-Returns, slice-Returns, be_at-Returns, le_at-Returns,
}
use go_toolkit.Audio.Id3.TextFrames.{
  Texts, index_byte, has_bom, bom_source, is_little, without_bom, units_loop, cut_loop,
  decode_utf16, decode_id3_bytes, decode_id3_text, decode_parts, parse_txxx_frame,
}

-- the offset, if there is one, is followed by `n` bytes of the text
abbrev Fits : ℕ → Bytes → Option ℕ → Type 0
Fits n text none = Unit {0}
Fits n text (some i) = i + n ≤ length text

fits :
    (n : ℕ) (text : Bytes) (o : Option ℕ) (i : ℕ) → o ≡ some i → Fits n text o → i + n ≤ length text
fits n text none i e h = absurd (ground (arith, e))
fits n text (some j) i e h = ground (arith, e, h)

index_byte-Fits : (bs : Bytes) (c : ℕ) → Fits 1 bs (index_byte bs c)
unfolding index_byte
index_byte-Fits [] c = tt
index_byte-Fits (b ∷ bs) c = elim (Bool-cases (b == c)) [
  | inl here ↦ rw here (omega arith)
  | inr later ↦ elim (Option-cases (index_byte bs c)) [
    | inl missing ↦ rw (later, missing) tt
    | inr (j, found) ↦
        let within = fits 1 bs (index_byte bs c) j found (index_byte-Fits bs c) in
        rw (later, found) (omega (arith, within))
  ]
]

pub index_byte-below : (bs : Bytes) (c i : ℕ) → index_byte bs c ≡ some i → i < length bs
index_byte-below bs c i e =
    let within = fits 1 bs (index_byte bs c) i e (index_byte-Fits bs c) in omega (arith, within)

has_bom-Returns : (b : Bytes) → Returns (has_bom b)
unfolding has_bom
has_bom-Returns b =
    if_Returns (leb 2 (length b)) _ _
      (λ e.
        let long = leb→le 2 (length b) e in
        then-Returns (index b 0) _ (index-Returns b 0 (omega arith))
          (λ b0. then-Returns (index b 1) _ (index-Returns b 1 (omega arith)) (λ b1. tt)))
      (λ e. tt)

-- only two bytes or more are marked
has_bom-Fits : (b : Bytes) → Ends (λ marked. marked ≡ true → 2 ≤ length b) (has_bom b)
unfolding has_bom
has_bom-Fits b = elim (Bool-cases (leb 2 (length b))) [
  | inl e ↦
      let long = leb→le 2 (length b) e in
      rw e (
        Ends-bind (λ x. Unit {0}) _ (index b 0) _ (index-Returns b 0 (omega arith))
          (λ b0 _.
            Ends-bind (λ x. Unit {0}) _ (index b 1) _ (index-Returns b 1 (omega arith))
              (λ b1 _ h. long)))
  | inr e ↦ rw e (λ h. absurd (ground (arith, h)))
]

bom_source-Returns : (encoding : ℕ) (b bom_from : Bytes) → Returns (bom_source encoding b bom_from)
unfolding bom_source
bom_source-Returns encoding b bom_from =
    if_Returns (encoding == 1) _ _
      (λ e.
        then-Returns (if ltb (length b) 2 then done false else has_bom b) _
          (if_Returns (ltb (length b) 2) _ _ (λ z. tt) (λ z. has_bom-Returns b)) (λ marked. tt))
      (λ e. tt)

is_little-Returns : (encoding : ℕ) (source : Bytes) → Returns (is_little encoding source)
unfolding is_little
is_little-Returns encoding source =
    if_Returns (encoding == 1 && leb 2 (length source)) _ _
      (λ e.
        let long : 2 ≤ length source = ground (arith, e) in
        then-Returns (index source 0) _ (index-Returns source 0 (omega arith))
          (λ b0. then-Returns (index source 1) _ (index-Returns source 1 (omega arith)) (λ b1. tt)))
      (λ e. tt)

without_bom-Returns : (b : Bytes) → Returns (without_bom b)
unfolding without_bom
without_bom-Returns b =
    Ends-bind (λ marked. marked ≡ true → 2 ≤ length b) (λ x. Unit {0}) (has_bom b) _
      (has_bom-Fits b)
      (λ marked long.
        if_Returns marked _ _ (λ e. slice-Returns b 2 (length b) (long e) (omega arith)) (λ e. tt))

units_loop-Returns :
    (fuel : ℕ) (little : Bool) (b : Bytes) (i : ℕ)
    → length b < fuel + i
    → 0 < fuel
    → Returns (units_loop fuel little b i)
unfolding units_loop
units_loop-Returns zero little b i h p = absurd (omega arith)
units_loop-Returns (suc fuel) little b i h p = elim (Bool-cases (ltb (i + 1) (length b))) [
  | inr over ↦ rw (over, units_loop) tt
  | inl more ↦
      let inside = ltb→lt (i + 1) (length b) more in
      rw (more, units_loop)
        (then-Returns (if little then le_at b i (i + 2) else be_at b i (i + 2)) _
          (if_Returns little _ _ (λ e. le_at-Returns b i (i + 2) (omega arith) (omega arith))
            (λ e. be_at-Returns b i (i + 2) (omega arith) (omega arith)))
          (λ unit.
            then-Returns (units_loop fuel little b (i + 2)) _
              (units_loop-Returns fuel little b (i + 2) (omega arith) (omega arith)) (λ rest. tt)))
]

cut_loop-Fits :
    (fuel : ℕ) (text : Bytes) (i : ℕ)
    → length text < fuel + i
    → 0 < fuel
    → Ends (Fits 2 text) (cut_loop fuel text i)
unfolding cut_loop
cut_loop-Fits zero text i h p = absurd (omega arith)
cut_loop-Fits (suc fuel) text i h p = elim (Bool-cases (ltb (i + 1) (length text))) [
  | inr over ↦ rw (over, cut_loop) tt
  | inl more ↦
      let inside = ltb→lt (i + 1) (length text) more in
      rw (more, cut_loop)
        (Ends-bind (λ x. Unit {0}) (Fits 2 text) (index text i) _
          (index-Returns text i (omega arith))
          (λ a _.
            Ends-bind (λ x. Unit {0}) (Fits 2 text) (index text (i + 1)) _
              (index-Returns text (i + 1) (omega arith))
              (λ b _. elim (Bool-cases (a == 0 && b == 0)) [
                | inl cut ↦ rw cut (omega arith)
                | inr on ↦ rw on (cut_loop-Fits fuel text (i + 2) (omega arith) (omega arith))
              ])))
]

module _ (texts : Texts) where
  decode_utf16-Returns :
      (encoding : ℕ) (b bom_from : Bytes) → Returns (decode_utf16 texts encoding b bom_from)
  unfolding decode_utf16
  decode_utf16-Returns encoding b bom_from =
      then-Returns (bom_source encoding b bom_from) _ (bom_source-Returns encoding b bom_from)
        (λ source.
          then-Returns (is_little encoding source) _ (is_little-Returns encoding source) (λ little.
            then-Returns (without_bom b) _ (without_bom-Returns b) (λ body.
              then-Returns (units_loop (suc (length body)) little body 0) _
                (units_loop-Returns (suc (length body)) little body 0 (omega arith) (omega arith))
                (λ units. tt))))

  decode_id3_bytes-Returns :
      (encoding : ℕ) (b bom_from : Bytes) → Returns (decode_id3_bytes texts encoding b bom_from)
  unfolding decode_id3_bytes
  decode_id3_bytes-Returns encoding b bom_from =
      if_Returns (encoding == 0) _ _ (λ e. tt)
        (λ e.
          if_Returns (encoding == 1 || encoding == 2) _ _
            (λ z. decode_utf16-Returns encoding b bom_from) (λ z. tt))

  pub decode_id3_text-Returns : (body : Bytes) → Returns (decode_id3_text texts body)
  unfolding decode_id3_text
  decode_id3_text-Returns body =
      if_Returns (length body == 0) _ _ (λ e. tt)
        (λ e.
          let some_bytes : 0 < length body = ground (arith, e) in
          then-Returns (index body 0) _ (index-Returns body 0 some_bytes) (λ encoding.
            then-Returns (checked_slice body 1 (length body)) _
              (slice-Returns body 1 (length body) (omega arith) (omega arith))
              (λ rest.
                then-Returns (decode_id3_bytes texts encoding rest []) _
                  (decode_id3_bytes-Returns encoding rest [])
                  (λ text. elim (Option-cases (index_byte text 0)) [
                    | inl whole ↦ rw whole tt
                    | inr (i, found) ↦
                        let below = index_byte-below text 0 i found in
                        rw found (slice-Returns text 0 i (omega arith) (omega arith))
                  ]))))

  decode_parts-Returns :
      (encoding : ℕ) (text : Bytes) (cut from : ℕ) (marks : Bool)
      → cut ≤ from
      → from ≤ length text
      → Returns (decode_parts texts encoding text cut from marks)
  unfolding decode_parts
  decode_parts-Returns encoding text cut from marks h k =
      then-Returns (checked_slice text 0 cut) _
        (slice-Returns text 0 cut (omega arith) (omega arith))
        (λ name.
          then-Returns (checked_slice text from (length text)) _
            (slice-Returns text from (length text) k (omega arith))
            (λ value.
              then-Returns (decode_id3_bytes texts encoding name []) _
                (decode_id3_bytes-Returns encoding name [])
                (λ description.
                  then-Returns (decode_id3_bytes texts encoding value (if marks then name else []))
                    _ (decode_id3_bytes-Returns encoding value (if marks then name else []))
                    (λ content. tt))))

  pub parse_txxx_frame-Returns : (body : Bytes) → Returns (parse_txxx_frame texts body)
  unfolding parse_txxx_frame
  parse_txxx_frame-Returns body =
      if_Returns (ltb (length body) 2) _ _ (λ e. tt)
        (λ e.
          let long = ltb→le (length body) 2 e in
          then-Returns (index body 0) _ (index-Returns body 0 (omega arith)) (λ encoding.
            then-Returns (checked_slice body 1 (length body)) _
              (slice-Returns body 1 (length body) (omega arith) (omega arith))
              (λ text. elim (Bool-cases (encoding == 1 || encoding == 2)) [
                | inl wide ↦ rw wide (
                    Ends-bind (Fits 2 text) (λ x. Unit {0}) (cut_loop (suc (length text)) text 0) _
                      (cut_loop-Fits (suc (length text)) text 0 (omega arith) (omega arith))
                      (λ cut inside. elim (Option-cases cut) [
                        | inl missing ↦ rw missing tt
                        | inr (i, found) ↦
                            let within = fits 2 text cut i found inside in
                            rw found (
                              decode_parts-Returns encoding text i (i + 2) true (omega arith)
                                within)
                      ]))
                | inr narrow ↦ elim (Option-cases (index_byte text 0)) [
                  | inl missing ↦ rw (narrow, missing) tt
                  | inr (i, found) ↦
                      let below = index_byte-below text 0 i found in
                      rw (narrow, found)
                        (decode_parts-Returns encoding text i (i + 1) false (omega arith)
                          (omega arith))
                ]
              ])))
