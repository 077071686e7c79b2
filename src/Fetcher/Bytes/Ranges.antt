-- ===== src/Fetcher/Bytes/Ranges.antt =====
-- pkg/fetcher/resource_bytes.go: Read clamps a range to the content, Stream does not.
use go_toolkit.Prelude.{
  ℕ, suc, ◌≤◌, ◌<◌, ◌≡◌, refl, sym, ◌∙◌, ◌⊎◌, inl, inr, false, ◌&&◌, none, some, ltb, ◌==◌,
  if◌then◌else◌, Bytes, length, slice, slice-clip, slice-past, arith, Bool-cases, le→ltb, lt→ltb,
  ltb→lt,
}
use go_toolkit.Prelude.Panic.{done, panic}
use go_toolkit.Fetcher.Resource.{ok, range}
use go_toolkit.Fetcher.Bytes.{BytesResource, load, stream_loaded, stream}

-- The resource holds the bytes, or its loader will give them and they are not empty.
abbrev pub Has : Bytes → BytesResource → Type 0
Has bs r = (r.bytes ≡ some bs) ⊎ ((r.bytes ≡ none) × (r.loader ≡ some bs) × (0 < length bs))

load-Has : (bs : Bytes) (r : BytesResource) → Has bs r → (load r).bytes ≡ some bs
unfolding load
load-Has bs r (inl e) = rw e refl
load-Has bs r (inr (e, l, n)) = rw (e, l) refl

pub slice-upto :
    (bs : Bytes) (start stop : ℕ)
    → slice bs start (if ltb (length bs) stop then length bs else stop) ≡ slice bs start stop
slice-upto bs start stop = elim (Bool-cases (ltb (length bs) stop)) [
  | inl over ↦ rw over (
      slice-clip bs start (length bs) (omega arith)
      ∙ sym (slice-clip bs start stop (omega (arith, ltb→lt _ _ over))))
  | inr within ↦ rw within refl
]

pub slice-from :
    (bs : Bytes) (start stop : ℕ)
    → slice bs (if ltb (length bs) start then length bs else start) stop ≡ slice bs start stop
slice-from bs start stop = elim (Bool-cases (ltb (length bs) start)) [
  | inl over ↦ rw over (
      slice-past bs (length bs) stop (omega arith)
      ∙ sym (slice-past bs start stop (omega (arith, ltb→lt _ _ over))))
  | inr within ↦ rw within refl
]

-- For a resource that has its bytes, or whose loader gives them and they are not empty, Stream
-- writes a range in order that ends within the content.
bytes_stream-range :
    (bs : Bytes) (r : BytesResource) (start end : ℕ)
    → Has bs r
    → start ≤ end
    → end < length bs
    → (stream r start end).0 ≡ done (ok (range bs start end))
unfolding stream stream_loaded
bytes_stream-range bs r start end has h w = elim (Bool-cases (start == 0 && end == 0)) [
  | inl whole ↦ rw (le→ltb end start h, load-Has bs r has, whole) refl
  | inr part ↦
      rw (le→ltb end start h, load-Has bs r has, part, le→ltb (length bs) (suc end) (omega arith))
        refl
]

-- For a resource that has its bytes, or whose loader gives them and they are not empty, a range in
-- order other than (0, 0) that ends behind the content is not clamped by Stream: it panics.
bytes_stream-past_panics :
    (bs : Bytes) (r : BytesResource) (start end : ℕ)
    → Has bs r
    → start ≤ end
    → length bs ≤ end
    → 0 < end
    → (stream r start end).0 ≡ panic
unfolding stream stream_loaded
bytes_stream-past_panics bs r start end has h past some_end =
    let part : (start == 0 && end == 0) ≡ false = ground arith in
    rw (le→ltb end start h, load-Has bs r has, part, lt→ltb (length bs) (suc end) (omega arith))
      refl
