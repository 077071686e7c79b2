-- ===== src/Audio/Durations/Ogg.antt =====
-- pkg/parser/audio/ogg.go: the duration of an Ogg stream, from its first page and its last.
use go_toolkit.Prelude.{
  ℕ, zero, suc, ◌+◌, ◌-◌, min, true, false, not, ◌&&◌, ◌||◌, Option, none, some, [], ◌∷◌, ltb, leb,
  ◌==◌, if◌then◌else◌, Bytes, length,
}
use go_toolkit.Prelude.Panic.{Run, done, panic, ◌>>=◌, checked_slice, index}
use go_toolkit.Fetcher.Resource.{Resource, Result, ok, err}
use go_toolkit.Audio.Durations.Decoding.{Floats, has_prefix, le_at}

abbrev pub ogg_capture_pattern : Bytes
ogg_capture_pattern = b'O' ∷ b'g' ∷ b'g' ∷ b'S' ∷ []

abbrev pub opus_head : Bytes
opus_head = b'O' ∷ b'p' ∷ b'u' ∷ b's' ∷ b'H' ∷ b'e' ∷ b'a' ∷ b'd' ∷ []

abbrev pub vorbis_head : Bytes
vorbis_head = 1 ∷ b'v' ∷ b'o' ∷ b'r' ∷ b'b' ∷ b'i' ∷ b's' ∷ []

abbrev pub sum : Bytes → ℕ
sum [] = 0
sum (b ∷ bs) = b + sum bs

-- `none` is nil
unfoldable pub first_page_body : Bytes → Run (Option Bytes)
first_page_body head =
    if not (has_prefix head ogg_capture_pattern) || ltb (length head) 27 then done none else do
      nseg ← index head 26
      elim (ltb (length head) (27 + nseg)) [
        | true ↦ done none
        | false ↦ do
          segments ← checked_slice head 27 (27 + nseg)
          body ← checked_slice head (27 + nseg) (min (27 + nseg + sum segments) (length head))
          done (some body)
      ]

-- the rate and the pre-skip, or not ok
unfoldable pub identify_body : Bytes → Run (Option (ℕ × ℕ))
identify_body body =
    if leb 19 (length body) && has_prefix body opus_head
    then (le_at body 10 12 >>= λ pre_skip. done (some (48000, pre_skip)))
    else if leb 16 (length body) && has_prefix body vorbis_head
    then (le_at body 12 16 >>= λ rate. done (some (rate, 0)))
    else done none

unfoldable pub ogg_identification : Bytes → Run (Option (ℕ × ℕ))
ogg_identification head = do
  body ← first_page_body head
  elim body [ none ↦ done none | some b ↦ identify_body b ]

-- bytes.Index
unfoldable pub index_of : Bytes → Bytes → Option ℕ
index_of [] pattern = if has_prefix [] pattern then some 0 else none
index_of (b ∷ bs) pattern =
    if has_prefix (b ∷ bs) pattern
    then some 0
    else elim (index_of bs pattern) [ none ↦ none | some i ↦ some (suc i) ]

abbrev pub no_granule : ℕ
no_granule = 18446744073709551615

-- the loop, with fuel for its rounds; the last argument is the granule that was found
unfoldable pub granule_loop : ℕ → Bytes → ℕ → Option ℕ → Run (Option ℕ)
granule_loop zero tail i found = panic
granule_loop (suc fuel) tail i found = elim (leb (i + 27) (length tail)) [
  | false ↦ done found
  | true ↦ do
    rest ← checked_slice tail i (length tail)
    elim (index_of rest ogg_capture_pattern) [
      | none ↦ done found
      | some idx ↦ elim (ltb (length tail) (i + idx + 27)) [
        | true ↦ done found
        | false ↦ do
          g ← le_at tail (i + idx + 6) (i + idx + 14)
          granule_loop fuel tail (i + idx + 4) (if g == no_granule then found else some g)
      ]
    ]
]

unfoldable pub last_ogg_granule : Bytes → Run (Option ℕ)
last_ogg_granule tail = granule_loop (suc (length tail)) tail 0 none

-- an empty result of Read is as bad as an error
abbrev pub content : Result Bytes → Bytes
content (ok bs) = bs
content (err x) = []

module _ {F : Type 0} (floats : Floats F) where
  -- the granule is converted to int64: from 2^63 on it is negative
  unfoldable pub ogg_seconds : ℕ → ℕ → ℕ → F
  ogg_seconds granule rate pre_skip =
      if leb 9223372036854775808 granule || leb granule pre_skip
      then floats.from_ℕ 0
      else floats.over (floats.from_ℕ (granule - pre_skip)) (floats.from_ℕ rate)

  unfoldable pub ogg_tail_duration : Bytes → ℕ → ℕ → Run F
  ogg_tail_duration tail rate pre_skip = if length tail == 0 then done (floats.from_ℕ 0) else do
    granule ← last_ogg_granule tail
    done (elim granule [ none ↦ floats.from_ℕ 0 | some g ↦ ogg_seconds g rate pre_skip ])

  unfoldable pub probe_ogg_duration : Resource → ℕ → Run F
  probe_ogg_duration r size =
      let head = content (r.read 0 (min 8192 size - 1)) in
      if size == 0 || length head == 0 then done (floats.from_ℕ 0) else do
        found ← ogg_identification head
        elim found [
          | none ↦ done (floats.from_ℕ 0)
          | some (rate, pre_skip) ↦
              if rate == 0
              then done (floats.from_ℕ 0)
              else ogg_tail_duration (content (r.read (size - min 65536 size) (size - 1))) rate
                  pre_skip
        ]
