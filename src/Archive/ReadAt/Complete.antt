-- ===== src/Archive/ReadAt/Complete.antt =====
-- pkg/archive/remote.go: the copy of the whole object, and the count of ranges zero.
use go_toolkit.Prelude.{
  ℕ, ◌+◌, ◌-◌, ◌≤◌, ◌<◌, ◌≡◌, refl, ap, ◌∙◌, ◌⊎◌, min, inl, inr, true, false, ◌&&◌, some, [], ◌++◌,
  ltb, ◌==◌, Bytes, length, length-append, append-nil, length-replicate, take-all, replicate, slice,
  arith, lt→leb, le→ltb, lt→ltb,
}
use go_toolkit.Prelude.Int.{pos}
use go_toolkit.Prelude.Panic.{panic}
use go_toolkit.Archive.Remote.{
  RemoteZipAdapter, Store, fill, read, failed, cache_all, serve_complete, read_complete, add_range,
  has_same_range, find_range,
}
use go_toolkit.Archive.ReadAt.{keep_read, read_body, read_ready, read_at}

module _ (s : Store) (b off : ℕ) where
  -- a read within the copy
  serve_complete-slice :
      (content : Bytes) (a : RemoteZipAdapter)
      → off + length (s b) ≤ length content
      → 0 < length (s b)
      → a.complete_bytes ≡ content
      → serve_complete a s b off
        ≡ (read (length (s b)), a, fill b (slice content off (off + length (s b))) s)
  unfolding serve_complete
  serve_complete-slice content a inside some_buffer e =
      let whole : min (length (s b)) (length content - off) ≡ length (s b) = omega arith in
      rw
        (
          e,
          whole,
          lt→leb (length content) off (omega arith),
          le→ltb (length (s b)) (length (s b)) (omega arith),
        )
        refl

-- An object that the adapter holds in memory: a read within it, into a buffer that is not empty,
-- gives its bytes, whether the copy is there or is made by this read from a reader that gives the
-- whole object, and from then on the copy is the object.
pub read_complete-slice :
    (content : Bytes) (a : RemoteZipAdapter) (s : Store) (b off : ℕ)
    → a.rdr.size ≡ length content
    → off + length (s b) ≤ length content
    → 0 < length (s b)
    → (a.complete_bytes ≡ content)
      ⊎ ((a.complete_bytes ≡ []) × (a.rdr.read_range (pos 0) (pos a.rdr.size) ≡ some content))
    → read_complete a s b off ≡ (
      read (length (s b)),
      record a { complete_bytes = content },
      fill b (slice content off (off + length (s b))) s,
    )
unfolding read_complete
read_complete-slice content a s b off known inside some_buffer (inl held) =
    let some_bytes : (length a.complete_bytes == 0) ≡ false = ground (arith, ap length held) in
    rw (read_complete, some_bytes)
      (serve_complete-slice s b off content a inside some_buffer held
        ∙ ap
            (λ bs. (
              read (length (s b)),
              record a { complete_bytes = bs },
              fill b (slice content off (off + length (s b))) s,
            ))
            held)
read_complete-slice content a s b off known inside some_buffer (inr (none_yet, sent)) =
    let same = take-all a.rdr.size content (omega arith) in
    let fits = le→ltb (length content) a.rdr.size (omega arith) in
    let filled : a.rdr.size - length content ≡ 0 = omega arith in
    rw (read_complete, none_yet, sent, same, fits, filled, append-nil content)
      (serve_complete-slice s b off content (record a { complete_bytes = content }) inside
        some_buffer refl)

-- If the one read of the whole object ends early, ReadAt fails, but it keeps the copy with zeros in
-- place of the bytes that did not come, and a later read within the size of the object is answered
-- from that without an error.
pub short_copy_is_served :
    (a : RemoteZipAdapter) (s t : Store) (b d off from : ℕ) (bs : Bytes)
    → a.complete_bytes ≡ []
    → a.rdr.read_range (pos 0) (pos a.rdr.size) ≡ some bs
    → length bs < a.rdr.size
    → from + length (t d) ≤ a.rdr.size
    → 0 < length (t d)
    → ((read_complete a s b off).0 ≡ failed (length bs))
      × (read_complete (read_complete a s b off).1 t d from ≡ (
        read (length (t d)),
        (read_complete a s b off).1,
        fill d (slice (bs ++ replicate (a.rdr.size - length bs) 0) from (from + length (t d))) t,
      ))
unfolding read_complete
short_copy_is_served a s t b d off from bs none_yet sent short inside some_buffer =
    let zeros : Bytes = replicate (a.rdr.size - length bs) 0 in
    let copy : Bytes = bs ++ zeros in
    let sized : length copy ≡ a.rdr.size =
      omega (arith, length-append bs zeros, length-replicate {A = ℕ} (a.rdr.size - length bs) 0) in
    let some_copy : (length copy == 0) ≡ false = ground (arith, sized) in
    let same = take-all a.rdr.size bs (omega arith) in
    rw (read_complete, none_yet, sent, same, lt→ltb (length bs) a.rdr.size short, some_copy)
      (
        refl,
        serve_complete-slice t d from copy (record a { complete_bytes = copy }) (omega arith)
            some_buffer refl,
      )

-- Once the archive is open and not held in memory, with a threshold of no ranges and none cached,
-- ReadAt panics at a read that succeeds and is small enough to be cached.
no_ranges_panics :
    (a : RemoteZipAdapter) (s : Store) (b off : ℕ) (bs : Bytes)
    → cache_all a ≡ false
    → a.zip_ready ≡ true
    → a.cached_ranges ≡ []
    → a.config.cache_count_threshold ≡ 0
    → a.rdr.read_range (pos off) (pos (length (s b))) ≡ some bs
    → 0 < length (s b)
    → length (s b) ≤ length bs
    → length (s b) ≤ a.config.cache_size_threshold
    → read_at a s b (pos off) ≡ panic
unfolding read_at read_ready read_body keep_read add_range find_range has_same_range
no_ranges_panics a s b off bs remote ready none_cached no_count sent some_buffer whole small =
    let buffered : (length (s b) == 0) ≡ false = ground arith in
    let as_body : (length (s b) == 30
          && ltb 0 a.config.cache_count_threshold
          && ltb 0 a.config.cache_size_threshold)
        ≡ false =
      ground arith in
    rw
      (
        buffered,
        remote,
        ready,
        as_body,
        none_cached,
        sent,
        le→ltb (length bs) (length (s b)) whole,
        le→ltb a.config.cache_size_threshold (length (s b)) small,
        no_count,
      )
      refl
