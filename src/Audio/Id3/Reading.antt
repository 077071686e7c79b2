-- ===== src/Audio/Id3/Reading.antt =====
-- pkg/parser/audio/id3chapters.go: what a read through the window of readID3Frames gives.
use go_toolkit.Prelude.{
  ℕ, suc, ◌+◌, ◌-◌, ◌≤◌, ◌<◌, ◌≡◌, refl, inl, inr, min, false, ◌&&◌, Option, none, some, ltb, leb,
  ◌==◌, Bytes, length, slice, length-slice, slice-slice, slice-clip, ap, sym, ◌∙◌, le→ltb, leb→lt,
  arith, Bool-cases, ltb→le, leb→le,
}
use go_toolkit.Prelude.Panic.{done, Ends, checked_slice-done}
use go_toolkit.Fetcher.Resource.{Resource, ok, range}
use go_toolkit.Audio.Durations.Decoding.{read_range}
use go_toolkit.Audio.Id3.Windows.{id3_read_window, max, Window, refill, window_slice, read_window}

-- what a read through the window gives has the length that was asked for
abbrev pub IsLong : ℕ → Option Bytes × Window → Type 0
IsLong n (none, w) = Unit
IsLong n (some bs, w) = length bs ≡ n

pub refill-IsLong :
    (r : Resource) (end at n : ℕ) (w : Window) → Ends (IsLong n) (refill r end at n w)
unfolding refill
refill-IsLong r end at n w =
    let size = min (max n id3_read_window) (end - at) in
    let bs = read_range r at size in
    elim (Bool-cases (ltb size n)) [
      | inl past ↦ rw past tt
      | inr inside ↦ elim (Bool-cases (ltb (length bs) n)) [
        | inl short ↦ rw (inside, short) tt
        | inr enough ↦
            let fits = ltb→le (length bs) n enough in
            rw (inside, enough, checked_slice-done bs 0 n (omega arith) fits)
              (omega (arith, length-slice bs 0 n))
      ]
    ]

pub long_frame :
    (answer : Option Bytes × Window) (frame : Bytes) (n : ℕ)
    → answer.0 ≡ some frame
    → IsLong n answer
    → length frame ≡ n
long_frame (none, w) frame n e h = absurd (ground (arith, e))
long_frame (some bs, w) frame n e h = ground (arith, e, h)

window_slice-done :
    (w : Window) (at n : ℕ)
    → w.start ≤ at
    → at - w.start + n ≤ length w.bytes
    → window_slice w at n ≡ done (slice w.bytes (at - w.start) (at - w.start + n))
unfolding window_slice
window_slice-done w at n h k =
    rw
      (
        le→ltb at w.start h,
        checked_slice-done w.bytes (at - w.start) (at - w.start + n) (omega arith) k,
      )
      refl

pub read_window-IsLong :
    (r : Resource) (end at n : ℕ) (w : Window) → Ends (IsLong n) (read_window r end at n w)
unfolding read_window
read_window-IsLong r end at n w =
    elim (Bool-cases (leb w.start at && leb (at + n) (w.start + length w.bytes))) [
      | inl held ↦
          let inside : at - w.start + n ≤ length w.bytes = ground (arith, held) in
          rw (held, window_slice-done w at n (ground (arith, held)) inside)
            (omega (arith, length-slice w.bytes (at - w.start) (at - w.start + n)))
      | inr miss ↦ rw miss (refill-IsLong r end at n w)
    ]

-- The window holds what the content has at its offset.
abbrev pub IsWindow : Bytes → Window → Type 0
IsWindow content w = w.bytes ≡ slice content w.start (w.start + length w.bytes)

slice_own_length :
    (xs : Bytes) (a b : ℕ) → a ≤ b → slice xs a b ≡ slice xs a (a + length (slice xs a b))
slice_own_length xs a b h = elim (Bool-cases (leb b (length xs))) [
  | inl inside ↦ ap (slice xs a) (omega (arith, length-slice xs a b, leb→le b (length xs) inside))
  | inr past ↦
      let long = leb→lt b (length xs) past in
      slice-clip xs a b (omega arith)
      ∙ sym (slice-clip xs a (a + length (slice xs a b)) (omega (arith, length-slice xs a b)))
]

served_range :
    (content : Bytes) (r : Resource) (at size : ℕ)
    → ((start end : ℕ) → r.read start end ≡ ok (range content start end))
    → 0 < at
    → 0 < size
    → read_range r at size ≡ slice content at (at + size)
unfolding read_range
served_range content r at size served p q =
    let some_bytes : (size == 0) ≡ false = ground arith in
    let part : (at == 0 && at + size - 1 == 0) ≡ false = ground arith in
    let stop : suc (at + size - 1) ≡ at + size = omega arith in
    rw (some_bytes, served at (at + size - 1), part, stop) refl

refill-slice :
    (content : Bytes) (r : Resource) (end at n : ℕ) (w : Window)
    → ((start end : ℕ) → r.read start end ≡ ok (range content start end))
    → 0 < at
    → 0 < n
    → at + n ≤ end
    → at + n ≤ length content
    → Ends
        (λ x. (x.0 ≡ some (slice content at (at + n))) × IsWindow content x.1)
        (refill r end at n w)
unfolding refill
refill-slice content r end at n w served p q inside present =
    let size = min (max n id3_read_window) (end - at) in
    let bs = slice content at (at + size) in
    let enough : n ≤ size = ground arith in
    let whole = le→ltb size n enough in
    let long : n ≤ length bs = omega (arith, length-slice content at (at + size)) in
    let full = le→ltb (length bs) n long in
    let start : at + 0 ≡ at = omega arith in
    rw
      (
        whole,
        served_range content r at size served p (omega arith),
        full,
        checked_slice-done bs 0 n (omega arith) long,
        slice-slice content at (at + size) 0 n (omega arith),
        start,
      )
      (refl, slice_own_length content at (at + size) (omega arith))

-- Over a resource that serves every range of a content, a read through the window of at least one byte
-- past the start, which lies within the tag and the content, gives the bytes of the content, whatever
-- the window holds of it, and the window that is left holds bytes of the content too.
pub read_window-slice :
    (content : Bytes) (r : Resource) (end at n : ℕ) (w : Window)
    → ((start end : ℕ) → r.read start end ≡ ok (range content start end))
    → 0 < at
    → 0 < n
    → at + n ≤ end
    → at + n ≤ length content
    → IsWindow content w
    → Ends
        (λ x. (x.0 ≡ some (slice content at (at + n))) × IsWindow content x.1)
        (read_window r end at n w)
unfolding read_window
read_window-slice content r end at n w served p q inside present valid =
    elim (Bool-cases (leb w.start at && leb (at + n) (w.start + length w.bytes))) [
      | inr miss ↦ rw miss (refill-slice content r end at n w served p q inside present)
      | inl held ↦
          let lo = at - w.start in
          let fits : lo + n ≤ length w.bytes = ground (arith, held) in
          let same =
            ap (λ bs. slice bs lo (lo + n)) valid
            ∙ slice-slice content w.start (w.start + length w.bytes) lo (lo + n) (omega arith) in
          let from : w.start + lo ≡ at = ground (arith, held) in
          let to : w.start + (lo + n) ≡ at + n = ground (arith, held) in
          rw (held, window_slice-done w at n (ground (arith, held)) fits)
            (
              ap some (
                  same
                  ∙ ap (λ k. slice content k (w.start + (lo + n))) from
                  ∙ ap (slice content at) to),
              valid,
            )
    ]
