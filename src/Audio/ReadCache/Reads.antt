-- ===== src/Audio/ReadCache/Reads.antt =====
-- pkg/parser/audio/readcache.go: what Read returns, and the state that it leaves.
use go_toolkit.Prelude.{
  ℕ, zero, suc, ◌-◌, ◌/◌, ◌≤◌, ◌<◌, ◌≡◌, refl, ap, sym, ◌∙◌, ◌⊎◌, inl, inr, min, true, false, ◌&&◌,
  ◌||◌, Option, none, some, [], ltb, leb, ◌==◌, leb→le, leb→lt, lt→leb, le→leb, le→ltb, ltb→le,
  Bytes, length, slice, slice-clip, arith, Bool-cases, if◌then◌else◌,
}
use go_toolkit.Prelude.Int.{pos, pos_part, leb_ℤ}
use go_toolkit.Fetcher.Resource.{Result, ok, err, ResourceErrorCode, range, Serves}
use go_toolkit.Audio.ReadCache.{ReadCache, Blocks, has_block, fetch, copy_out, read_blocks, read}
use go_toolkit.Audio.ReadCache.Blocks.{IsValid}
use go_toolkit.Audio.ReadCache.Fetching.{Fetched, fetch-Fetched}
use go_toolkit.Audio.ReadCache.Gathering.{gather_all, quotient_below}

module _ (content : Bytes) (c : ReadCache) (start end : ℕ) where
  -- the ends of a read of blocks
  pub record BlocksRead (r : Result Bytes × ReadCache) : Type 0 where
    pub outcome :
        (r.0 ≡ ok (slice content start (suc end)))
        ⊎ ((x : ResourceErrorCode) × (r.0 ≡ err x)
            × ((a : ℕ) × (b : ℕ) × (c.resource.read a b ≡ err x)))
    pub valid : IsValid content r.1
    pub present :
        (bs : Bytes)
        → r.0 ≡ ok bs
        → (j : ℕ) → start / c.block_size ≤ j
        → j ≤ end / c.block_size
        → has_block r.1.blocks j ≡ true

  -- how the outcome of fetch is turned into that of Read
  BlocksRead-Fetched :
      0 < c.block_size
      → start ≤ end
      → end < length content
      → IsValid content c
      → (failure : Option ResourceErrorCode) (m : Blocks)
      → Fetched content c c.blocks (start / c.block_size) (end / c.block_size) (failure, m)
      → BlocksRead (copy_out c start end (failure, m))
  unfolding copy_out
  BlocksRead-Fetched p se el v none m f = record {
    outcome =
        inl
          (ap ok (gather_all content c.block_size start end p se el m f.cached (f.complete refl)));
    valid = record { positive = p; sized = v.sized; cached = f.cached };
    present = λ bs e. f.complete refl;
  }
  BlocksRead-Fetched p se el v (some x) m f = record {
    outcome = inr (x, refl, f.failed x refl);
    valid = record { positive = p; sized = v.sized; cached = f.cached };
    present = λ bs e. cc;
  }

  pub read_blocks-BlocksRead :
      start ≤ end
      → end < length content
      → pos_part c.size ≡ length content
      → IsValid content c
      → Serves content c.resource
      → BlocksRead (read_blocks c start end)
  unfolding read_blocks
  read_blocks-BlocksRead se el sized v serves =
      let first = start / c.block_size in
      let last = end / c.block_size in
      BlocksRead-Fetched v.positive se el v _ _ (
        fetch-Fetched content c serves v.positive sized last
          (omega (arith, quotient_below end c.block_size v.positive)) (suc last - first) c.blocks
          first (omega arith) v.cached)

-- A range that is served from the blocks: the size is known, and the range is not (0, 0), which
-- stands for the whole content.
abbrev pub IsBlockRange : ReadCache → ℕ → ℕ → Type 0
IsBlockRange c start end = (start ≤ end) × (0 < end) × (0 < pos_part c.size)

-- the end of a range, clamped to the size
abbrev pub clamped : ReadCache → ℕ → ℕ
clamped c end = min end (pos_part c.size - 1)

-- every block that a range within the content needs is in the map
abbrev pub IsResident : ReadCache → ℕ → ℕ → Type 0
IsResident c start end =
    (j : ℕ)
    → start / c.block_size ≤ j
    → j ≤ clamped c end / c.block_size
    → has_block c.blocks j ≡ true

known_size : (c : ReadCache) → 0 < pos_part c.size → leb_ℤ c.size (pos 0) ≡ false
known_size c h = ground arith

module _ (c : ReadCache) (start end : ℕ) where
  -- the three ways through Read
  no_bypass :
      IsBlockRange c start end
      → ((start == 0 && end == 0) || leb_ℤ c.size (pos 0) || ltb end start) ≡ false
  no_bypass (se, p, k) =
      let not_zero : (end == 0) ≡ false = ground arith in
      rw (known_size c k, le→ltb end start se, not_zero) (ground arith)

  pub read-bypass :
      ((start == 0 && end == 0) || leb_ℤ c.size (pos 0) || ltb end start) ≡ true
      → read c start end ≡ (c.resource.read start end, c)
  unfolding read
  read-bypass h = rw h

  pub read-past : IsBlockRange c start end → pos_part c.size ≤ start → read c start end ≡ (ok [], c)
  unfolding read
  read-past b h = rw (no_bypass b, le→leb _ _ h)

  pub read-blocks :
      IsBlockRange c start end
      → start < pos_part c.size
      → read c start end ≡ read_blocks c start (clamped c end)
  unfolding read
  read-blocks b h =
      let stop : (if leb (pos_part c.size) end then pos_part c.size - 1 else end) ≡ clamped c end =
        ground arith in
      rw (no_bypass b, lt→leb _ _ h, stop)

  -- a read of resident blocks
  pub fetch-resident :
      (n : ℕ) (m : Blocks) (b last : ℕ)
      → ((j : ℕ) → b ≤ j → j ≤ last → has_block m j ≡ true)
      → fetch n c m b last ≡ (none, m)
  unfolding fetch
  fetch-resident zero m b last there = refl
  fetch-resident (suc n) m b last there = elim (Bool-cases (ltb last b)) [
    | inl over ↦ rw over
    | inr within ↦
        rw (within, there b (omega arith) (ltb→le last b within))
          (fetch-resident n m (suc b) last (λ j lo hi. there j (omega arith) hi))
  ]

-- a range of the content that is clamped to its length, and is not (0, 0)
pub range-clamped :
    (content : Bytes) (start end : ℕ)
    → 0 < end
    → 0 < length content
    → range content start end ≡ slice content start (suc (min end (length content - 1)))
range-clamped content start end p k =
    let part : (start == 0 && end == 0) ≡ false = ground arith in
    rw part (elim (Bool-cases (leb (length content) end)) [
      | inl past ↦
          slice-clip content start (suc end) (omega (arith, leb→le _ _ past))
          ∙ sym (slice-clip content start _ (omega (arith, leb→le _ _ past)))
      | inr inside ↦
          let same : min end (length content - 1) ≡ end = omega (arith, leb→lt _ _ inside) in
          rw same
    ])
