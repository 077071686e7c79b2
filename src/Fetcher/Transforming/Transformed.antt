-- ===== src/Fetcher/Transforming/Transformed.antt =====
-- pkg/fetcher/resource.go: what Read and Stream of a TransformingResource give.
use go_toolkit.Prelude.{
  ℕ, suc, ◌≤◌, ◌<◌, ◌≡◌, refl, ap, ◌∙◌, ◌⊎◌, inl, inr, true, false, ◌&&◌, some, [], ltb, ◌==◌,
  if◌then◌else◌, Bytes, length, arith, Bool-cases, lt→ltb, le→ltb,
}
use go_toolkit.Prelude.Panic.{done, panic, checked_slice, checked_slice-done}
use go_toolkit.Fetcher.Resource.{ok, range, code_internal_server_error}
use go_toolkit.Fetcher.Bytes.Ranges.{slice-from, slice-upto}
use go_toolkit.Fetcher.Transforming.{TransformingResource, load, clamp, read, stream}

-- The transformed content: it is not empty, and the resource has kept nothing else.
abbrev pub Transforms : Bytes → TransformingResource → Type 0
Transforms content r =
    (0 < length content)
    × ((bin : Bytes) × (r.resource.read 0 0 ≡ ok bin) × (r.transform bin ≡ content))
    × ((r.bytes ≡ []) ⊎ (r.bytes ≡ content))

load-Transforms :
    (content : Bytes) (r : TransformingResource)
    → Transforms content r
    → ((load r).0 ≡ ok content) × Transforms content (load r).1
unfolding load
load-Transforms content r (some_bytes, source, inr held) =
    let kept : ltb 0 (length r.bytes) ≡ true = ground (arith, ap length held) in
    rw kept (ap ok held, (some_bytes, source, inr held))
load-Transforms content r (some_bytes, (bin, sent, same), inl fresh) =
    let filled : (length content == 0) ≡ false = ground arith in
    elim (Bool-cases r.cache_bytes) [
      | inl caches ↦
          rw (load, fresh, sent, same, filled, caches)
            (refl, (some_bytes, (bin, sent, same), inr refl))
      | inr forgets ↦
          rw (load, fresh, sent, same, filled, forgets)
            (refl, (some_bytes, (bin, sent, same), inl fresh))
    ]

clamp-range :
    (bs : Bytes) (start end : ℕ) → start ≤ end → clamp bs start end ≡ done (range bs start end)
unfolding clamp
clamp-range bs start end h = elim (Bool-cases (start == 0 && end == 0)) [
  | inl whole ↦ rw whole refl
  | inr part ↦
      let from = if ltb (length bs) start then length bs else start in
      let stop = if ltb (length bs) (suc end) then length bs else suc end in
      rw (part, checked_slice-done bs from stop (ground arith) (ground arith))
        (ap done (slice-from bs start stop ∙ slice-upto bs start (suc end)))
]

-- For a resource whose transformed content is not empty, Read of a range in order answers the range
-- of the transformed content, clamped to it, and leaves a resource for which the same holds,
-- whether it keeps the content or transforms it again.
pub transforming_read-range :
    (content : Bytes) (r : TransformingResource) (start end : ℕ)
    → Transforms content r
    → start ≤ end
    → ((read r start end).0 ≡ done (ok (range content start end)))
      × Transforms content (read r start end).1
unfolding read
transforming_read-range content r start end t h =
    let (loaded, kept) = load-Transforms content r t in
    (rw (read, loaded, clamp-range content start end h) refl, kept)

-- For a resource whose transformed content is not empty, Stream of a range in order writes the
-- range of the transformed content, all of it, and reports an error nevertheless.
pub transforming_stream-fails :
    (content : Bytes) (r : TransformingResource) (start end : ℕ)
    → Transforms content r
    → start ≤ end
    → (stream r start end).0
      ≡ done
          (record { written = range content start end; failure = some code_internal_server_error })
unfolding stream
transforming_stream-fails content r start end t h =
    let (loaded, kept) = load-Transforms content r t in
    rw (stream, loaded, clamp-range content start end h) refl

-- For a resource whose transformed content is not empty, a range that ends more than one byte
-- before it starts, and starts within the content, makes Read panic.
transforming_read-reversed_panics :
    (content : Bytes) (r : TransformingResource) (start end : ℕ)
    → Transforms content r
    → suc end < start
    → start ≤ length content
    → (read r start end).0 ≡ panic
unfolding read clamp checked_slice
transforming_read-reversed_panics content r start end t reversed inside =
    let (loaded, kept) = load-Transforms content r t in
    let part : (start == 0 && end == 0) ≡ false = ground arith in
    let start_inside = le→ltb (length content) start inside in
    let end_inside = le→ltb (length content) (suc end) (omega arith) in
    rw (read, loaded, part, start_inside, end_inside, lt→ltb (suc end) start reversed) refl
