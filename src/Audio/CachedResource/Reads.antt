-- ===== src/Audio/CachedResource/Reads.antt =====
-- pkg/parser/audio/servecache.go: Read of a cachedResource keeps the contract of a resource.
use go_toolkit.Prelude.{
  ℕ, suc, ◌-◌, ◌/◌, ◌≤◌, ◌<◌, ◌≡◌, refl, sym, ◌∙◌, ◌⊎◌, inl, inr, true, false, ◌&&◌, ◌==◌, Bytes,
  slice as sub_slice, slice-whole, arith, Bool-cases,
}
use mathlib.Core.Bool.{false≢true}
use go_toolkit.Prelude.Int.{pos, pos_part, leb_ℤ}
use go_toolkit.Prelude.Panic.{done, panic}
use go_toolkit.Fetcher.Resource.{Result, ok, range, Serves, Answers, Serves-Answers}
use go_toolkit.Audio.ReadCache.Reads.{range-clamped}
use go_toolkit.Audio.RetainedCache.{slice}
use go_toolkit.Audio.RetainedCache.Slice.{
  IsValid, Holds, Misses, clamped, slice_cases, slice-past_panics,
}
use go_toolkit.Audio.CachedResource.{CachedResource, Normalized, normalize, read}

-- the range that normalize makes of one, if the size is known
pub record IsNormal (content : Bytes) (r : CachedResource) (start end : ℕ) (n : Normalized)
    : Type 0 where
  pub part : n.whole ≡ false
  pub same_start : n.start ≡ start
  pub ordered : start ≤ n.end
  pub same_range : sub_slice content start (suc (clamped r.cache n.end)) ≡ range content start end

pub normalize-IsNormal :
    (content : Bytes) (r : CachedResource) (start end : ℕ)
    → IsValid content r.cache
    → start ≤ end
    → 0 < pos_part r.cache.size
    → IsNormal content r start end (normalize r start end)
unfolding normalize
normalize-IsNormal content r start end v se k = elim (Bool-cases (start == 0 && end == 0)) [
  | inl zeros ↦
      let known : leb_ℤ r.cache.size (pos 0) ≡ false = ground arith in
      let at : start ≡ 0 = ground arith in
      rw (zeros, known)
        (record {
          part = refl;
          same_start = sym at;
          ordered = omega arith;
          same_range = rw (zeros, at) (slice-whole content _ (omega (arith, v.sized)));
        })
  | inr part ↦ rw part (record {
    part = refl;
    same_start = refl;
    ordered = se;
    same_range =
        rw (v.sized k)
          (sym (range-clamped content start end (ground arith) (omega (arith, v.sized))));
  })
]

read-unknown :
    (r : CachedResource) (start end : ℕ)
    → pos_part r.cache.size ≡ 0
    → read r start end ≡ done (r.resource.read start end)
unfolding read normalize slice
read-unknown r start end k =
    let unknown : leb_ℤ r.cache.size (pos 0) ≡ true = ground arith in ground arith

module _ (content : Bytes) (r : CachedResource) (start end : ℕ) (v : IsValid content r.cache)
    (se : start ≤ end) (inside : start < pos_part r.cache.size) where
  -- the last block that a range needs
  abbrev pub last_block : ℕ
  last_block = clamped r.cache (normalize r start end).end / r.cache.block_size

  abbrev first_block : ℕ
  first_block = start / r.cache.block_size

  read_cases :
      (Holds r.cache first_block last_block
        × (read r start end ≡ done (ok (range content start end))))
      ⊎ (Misses r.cache first_block last_block
          × (read r start end ≡ done (r.resource.read start end)))
  unfolding read
  read_cases =
      let n = normalize-IsNormal content r start end v se (omega arith) in
      elim (slice_cases content r.cache start (normalize r start end).end v n.ordered inside) [
        | inl (holds, hit) ↦ inl (holds, (rw (n.part, n.same_start, hit) (rw n.same_range)))
        | inr (misses, miss) ↦ inr (misses, (rw (n.part, n.same_start, miss)))
      ]

  -- A range whose blocks are retained is read without the resource, and any other goes to it as it
  -- was asked.
  pub read-covered :
      Holds r.cache first_block last_block → read r start end ≡ done (ok (range content start end))
  read-covered holds = elim read_cases [
    | inl (_, hit) ↦ hit
    | inr ((j, lo, hi, missing), _) ↦ absurd (false≢true (sym missing ∙ holds j lo hi))
  ]

  pub read-missing :
      Misses r.cache first_block last_block → read r start end ≡ done (r.resource.read start end)
  read-missing (j, lo, hi, missing) = elim read_cases [
    | inl (holds, _) ↦ absurd (false≢true (sym missing ∙ holds j lo hi))
    | inr (_, miss) ↦ miss
  ]

-- Over a valid cache and a resource whose successful reads are ranges of the content: where the
-- size is unknown, or the range in order begins within the content, Read does not panic, and it
-- returns the range of the content or an error with which a read of the resource failed.
pub cached_read-Answers :
    (content : Bytes) (r : CachedResource) (start end : ℕ)
    → IsValid content r.cache
    → Serves content r.resource
    → start ≤ end
    → (pos_part r.cache.size ≡ 0) ⊎ (start < pos_part r.cache.size)
    → (x : Result Bytes) × (read r start end ≡ done x) × Answers content r.resource start end x
cached_read-Answers content r start end v serves se (inl unknown) = (
  r.resource.read start end,
  read-unknown r start end unknown,
  Serves-Answers content r.resource start end _ serves se refl,
)
cached_read-Answers content r start end v serves se (inr inside) =
    elim (read_cases content r start end v se inside) [
      | inl (_, hit) ↦ (ok (range content start end), hit, refl)
      | inr (_, miss) ↦ (
        r.resource.read start end,
        miss,
        Serves-Answers content r.resource start end _ serves se refl,
      )
    ]

-- A range that begins behind the last block and more than one byte past the end of the content
-- makes Read panic, whatever the resource would answer; the interface promises to clamp it.
pub cached_read-past_panics :
    (r : CachedResource) (start end : ℕ)
    → 0 < pos_part r.cache.size
    → pos_part r.cache.size < start
    → start ≤ end
    → (pos_part r.cache.size - 1) / r.cache.block_size < start / r.cache.block_size
    → read r start end ≡ panic
unfolding read normalize
cached_read-past_panics r start end k beyond se apart =
    let part : (start == 0 && end == 0) ≡ false = ground arith in
    rw (part, slice-past_panics r.cache start end k beyond se apart)
