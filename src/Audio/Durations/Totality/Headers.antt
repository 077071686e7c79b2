-- ===== src/Audio/Durations/Totality/Headers.antt =====
-- pkg/parser/audio: the parts of the probes that do not loop return.
use go_toolkit.Prelude.{
  ℕ, ◌%◌, ◌≤◌, inl, inr, min, not, ltb, ◌==◌, Bytes, length, slice, length-slice, arith, Bool-cases,
  ltb→le,
}
use go_toolkit.Prelude.Panic.{checked_slice-done, index}
use go_toolkit.Fetcher.Resource.{Resource}
use go_toolkit.Audio.Durations.Decoding.{
  Floats, equal_bytes, read_range, index-done, be_at-done, le_at-done,
}
use go_toolkit.Audio.Durations.Flac.{
  flac_sample_rate, flac_total_samples, flac_stream_info, flac_block,
}
use go_toolkit.Audio.Durations.Chunks.{
  Wav, text_fmt, text_fact, text_data, wav_fmt, wav_fact, wav_chunk, decode_extended_float,
  aiff_comm,
}
use go_toolkit.Audio.Durations.Totality.{Returns, then-Returns, if_Returns, index-Returns}

module _ {F : Type 0} (floats : Floats F) where
  pub flac_stream_info-Returns :
      (si : Bytes) → 34 ≤ length si → Returns (flac_stream_info floats si)
  unfolding flac_stream_info flac_sample_rate flac_total_samples
  flac_stream_info-Returns si h =
      rw
        (
          index-done si 10 (omega arith),
          index-done si 11 (omega arith),
          index-done si 12 (omega arith),
          index-done si 13 (omega arith),
          index-done si 14 (omega arith),
          index-done si 15 (omega arith),
          index-done si 16 (omega arith),
          index-done si 17 (omega arith),
        )
        tt

  pub flac_block-Returns : (block : Bytes) → Returns (flac_block floats block)
  unfolding flac_block
  flac_block-Returns block =
      if_Returns (ltb (length block) 38) _ _ (λ e. tt)
        (λ e.
          let long = ltb→le (length block) 38 e in
          then-Returns (index block 0) _ (index-Returns block 0 (omega arith)) (λ kind.
            if_Returns (not (kind % 128 == 0)) _ _ (λ _. tt)
              (λ _.
                rw (checked_slice-done block 4 (length block) (omega arith) (omega arith)) (
                  flac_stream_info-Returns _
                    (omega (arith, length-slice block 4 (length block)))))))

  pub decode_extended_float-Returns : (b : Bytes) → Returns (decode_extended_float floats b)
  unfolding decode_extended_float
  decode_extended_float-Returns b =
      if_Returns (ltb (length b) 10) _ _ (λ e. tt)
        (λ e.
          let long = ltb→le (length b) 10 e in
          rw
            (
              index-done b 0 (omega arith),
              index-done b 1 (omega arith),
              be_at-done b 2 10 (omega arith) long,
            )
            tt)

  pub aiff_comm-Returns : (body : Bytes) → Returns (aiff_comm floats body)
  unfolding aiff_comm
  aiff_comm-Returns body =
      if_Returns (ltb (length body) 18) _ _ (λ e. tt)
        (λ e.
          let long = ltb→le (length body) 18 e in
          rw
            (
              be_at-done body 2 6 (omega arith) (omega arith),
              checked_slice-done body 8 18 (omega arith) long,
            )
            (then-Returns (decode_extended_float floats (slice body 8 18)) _
              (decode_extended_float-Returns (slice body 8 18)) (λ rate. tt)))

pub wav_fmt-Returns : (body : Bytes) (w : Wav) → Returns (wav_fmt body w)
unfolding wav_fmt
wav_fmt-Returns body w =
    if_Returns (ltb (length body) 16) _ _ (λ e. tt)
      (λ e.
        let long = ltb→le (length body) 16 e in
        rw
          (
            le_at-done body 2 4 (omega arith) (omega arith),
            le_at-done body 4 8 (omega arith) (omega arith),
            le_at-done body 8 12 (omega arith) (omega arith),
            le_at-done body 14 16 (omega arith) long,
          )
          tt)

pub wav_fact-Returns : (body : Bytes) (w : Wav) → Returns (wav_fact body w)
unfolding wav_fact
wav_fact-Returns body w =
    if_Returns (ltb (length body) 4) _ _ (λ e. tt)
      (λ e. rw (le_at-done body 0 4 (omega arith) (ltb→le (length body) 4 e)) tt)

pub wav_chunk-Returns :
    (r : Resource) (id : Bytes) (size body : ℕ) (w : Wav) → Returns (wav_chunk r id size body w)
unfolding wav_chunk
wav_chunk-Returns r id size body w = elim (Bool-cases (equal_bytes id text_fmt)) [
  | inl fmt ↦ rw fmt (wav_fmt-Returns (read_range r body (min size 16)) w)
  | inr other ↦ elim (Bool-cases (equal_bytes id text_fact)) [
    | inl fact ↦ rw (other, fact) (wav_fact-Returns (read_range r body 4) w)
    | inr third ↦ elim (Bool-cases (equal_bytes id text_data)) [
      | inl size_of ↦ rw (other, third, size_of) tt
      | inr last ↦ rw (other, third, last) tt
    ]
  ]
]
