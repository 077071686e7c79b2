-- ===== src/Audio/Durations/Totality/Walks.antt =====
-- pkg/parser/audio: the walks over the chunks of WAV and AIFF files end within their fuel.
use go_toolkit.Prelude.{
  ℕ, zero, suc, ◌+◌, ◌≤◌, ◌<◌, inl, inr, ◌&&◌, leb, length, slice, arith, Bool-cases,
}
use go_toolkit.Prelude.Panic.{checked_slice-done}
use go_toolkit.Fetcher.Resource.{Resource}
use go_toolkit.Audio.Durations.Decoding.{Floats, equal_bytes, read_range, be_at, le_at}
use go_toolkit.Audio.Durations.Chunks.{Wav, text_comm, next_chunk, wav_chunk, wav_loop, aiff_loop}
use go_toolkit.Audio.Durations.Totality.{Returns, then-Returns, le_at-Returns, be_at-Returns}
use go_toolkit.Audio.Durations.Totality.Headers.{wav_chunk-Returns, aiff_comm-Returns}

next_chunk_le : (body size : ℕ) → body ≤ next_chunk body size
unfolding next_chunk
next_chunk_le body size = omega arith

-- Each round of a walk over chunks moves on by at least the eight bytes of a header.
pub wav_loop-Returns :
    (fuel : ℕ) (r : Resource) (limit offset : ℕ) (w : Wav)
    → 0 < fuel
    → limit < offset + fuel
    → Returns (wav_loop fuel r limit offset w)
unfolding wav_loop
wav_loop-Returns zero r limit offset w p h = absurd (omega arith)
wav_loop-Returns (suc fuel) r limit offset w p h =
    let header = read_range r offset 8 in
    elim (Bool-cases (leb (offset + 8) limit && leb 8 (length header))) [
      | inr over ↦ rw (over, wav_loop) tt
      | inl more ↦
          let long : 8 ≤ length header = ground (arith, more) in
          let inside : offset + 8 ≤ limit = ground (arith, more) in
          rw (more, wav_loop, checked_slice-done header 0 4 (omega arith) (omega arith))
            (then-Returns (le_at header 4 8) _ (le_at-Returns header 4 8 (omega arith) long)
              (λ size.
                then-Returns (wav_chunk r (slice header 0 4) size (offset + 8) w) _
                  (wav_chunk-Returns r (slice header 0 4) size (offset + 8) w)
                  (λ w'.
                    let on = next_chunk_le (offset + 8) size in
                    elim (Bool-cases (leb (next_chunk (offset + 8) size) offset)) [
                      | inl stop ↦ rw stop tt
                      | inr go ↦ rw go (
                          wav_loop-Returns fuel r limit (next_chunk (offset + 8) size) w'
                            (omega arith) (omega arith))
                    ])))
    ]

module _ {F : Type 0} (floats : Floats F) where
  pub aiff_loop-Returns :
      (fuel : ℕ) (r : Resource) (limit offset : ℕ)
      → 0 < fuel
      → limit < offset + fuel
      → Returns (aiff_loop floats fuel r limit offset)
  unfolding aiff_loop
  aiff_loop-Returns zero r limit offset p h = absurd (omega arith)
  aiff_loop-Returns (suc fuel) r limit offset p h =
      let header = read_range r offset 8 in
      elim (Bool-cases (leb (offset + 8) limit && leb 8 (length header))) [
        | inr over ↦ rw (over, aiff_loop) tt
        | inl more ↦
            let long : 8 ≤ length header = ground (arith, more) in
            let inside : offset + 8 ≤ limit = ground (arith, more) in
            rw (more, aiff_loop, checked_slice-done header 0 4 (omega arith) (omega arith))
              (then-Returns (be_at header 4 8) _ (be_at-Returns header 4 8 (omega arith) long)
                (λ size.
                  let on = next_chunk_le (offset + 8) size in
                  elim (Bool-cases (equal_bytes (slice header 0 4) text_comm)) [
                    | inl comm ↦ rw comm (aiff_comm-Returns floats (read_range r (offset + 8) 18))
                    | inr other ↦ elim (Bool-cases (leb (next_chunk (offset + 8) size) offset)) [
                      | inl stop ↦ rw (other, stop) tt
                      | inr go ↦
                          rw (other, go)
                            (aiff_loop-Returns fuel r limit (next_chunk (offset + 8) size)
                              (omega arith) (omega arith))
                    ]
                  ]))
      ]
