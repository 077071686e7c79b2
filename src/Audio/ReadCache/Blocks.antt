-- ===== src/Audio/ReadCache/Blocks.antt =====
-- pkg/parser/audio/readcache.go: what the block map holds, and that storing a run keeps it.
use go_toolkit.Prelude.{
  ℕ, zero, suc, ◌+◌, ◌-◌, ◌*◌, ◌≤◌, ◌<◌, ◌≡◌, sym, ◌∙◌, ap, ◌&&◌, ◌||◌, some, ltb, leb, ◌==◌, Bytes,
  length, slice, arith, inl, inr, Bool-cases, ◌⊎◌, leb→le, leb→lt, slice-slice, slice-clip,
  slice-past,
}
use mathlib.Core.Path.{subst}
use go_toolkit.Prelude.Int.{pos_part}
use go_toolkit.Prelude.Assoc.{lookup, insert, lookup-insert}
use go_toolkit.Fetcher.Resource.{ok, range, Serves}
use go_toolkit.Audio.ReadCache.{ReadCache, Blocks, block_part, store_run, read_run, has_block}

-- block number `b` of a content
abbrev pub block : Bytes → ℕ → ℕ → Bytes
block content size b = slice content (b * size) (b * size + size)

-- every block of the map is that block of the content
abbrev pub IsCached : Bytes → ℕ → Blocks → Type 0
IsCached content size m = (b : ℕ) (blk : Bytes) → lookup b m ≡ some blk → blk ≡ block content size b

pub record IsValid (content : Bytes) (c : ReadCache) : Type 0 where
  pub positive : 0 < c.block_size
  pub sized : 0 < pos_part c.size → pos_part c.size ≡ length content
  pub cached : IsCached content c.block_size c.blocks

-- the bytes of a run begin with the blocks of the run
abbrev pub Covers : Bytes → ℕ → ℕ → ℕ → Bytes → Type 0
Covers content size start n bs =
    (i : ℕ) → i < n → slice bs (i * size) (i * size + size) ≡ block content size (start + i)

pub mul_step : (i n d : ℕ) → i < n → i * d + d ≤ n * d
mul_step i n d h = grind arith

-- the two clamps of the storing loop only repeat what a slice does by itself
pub block_part-slice :
    (size : ℕ) (bs : Bytes) (i : ℕ) → block_part size bs i ≡ slice bs (i * size) (i * size + size)
unfolding block_part
block_part-slice size bs i = elim (Bool-cases (leb (length bs) (i * size))) [
  | inl past ↦ rw past (sym (slice-past bs _ _ (leb→le _ _ past)))
  | inr inside ↦ rw inside (elim (Bool-cases (ltb (length bs) (i * size + size))) [
    | inl short ↦ rw short (
        slice-clip bs (i * size) (length bs) (omega arith)
        ∙ sym (slice-clip bs (i * size) _ (ground arith)))
    | inr full ↦ rw full
  ])
]

IsCached-insert :
    (content : Bytes) (size k : ℕ) (v : Bytes) (m : Blocks)
    → v ≡ block content size k
    → IsCached content size m
    → IsCached content size (insert k v m)
IsCached-insert content size k v m e cached b blk found = elim (Bool-cases (k == b)) [
  | inl here ↦
      let same : k ≡ b = ground arith in
      let stored : v ≡ blk = ground (arith, lookup-insert k b v m) in
      sym stored ∙ e ∙ ap (block content size) same
  | inr other ↦ cached b blk (ground (arith, lookup-insert k b v m))
]

pub store_run-IsCached :
    (content : Bytes) (size start n : ℕ) (bs : Bytes) (i k : ℕ) (m : Blocks)
    → k + i ≡ n
    → Covers content size start n bs
    → IsCached content size m
    → IsCached content size (store_run size start bs i k m)
unfolding store_run
store_run-IsCached content size start n bs i zero m e covers cached = cached
store_run-IsCached content size start n bs i (suc k) m e covers cached =
    store_run-IsCached content size start n bs (suc i) k _ (omega arith) covers (
      IsCached-insert content size (start + i) _ m
        (block_part-slice size bs i ∙ covers i (omega arith)) cached)

-- storing keeps the blocks that are there and adds those of the run
pub has_block-store_run :
    (size start : ℕ) (bs : Bytes) (i k : ℕ) (m : Blocks) (b : ℕ)
    → has_block (store_run size start bs i k m) b
      ≡ (has_block m b || (leb (start + i) b && ltb b (start + i + k)))
unfolding store_run has_block
has_block-store_run size start bs i zero m b = ground arith
has_block-store_run size start bs i (suc k) m b = ground (
  arith,
  has_block-store_run size start bs (suc i) k (insert (start + i) (block_part size bs i) m) b,
  lookup-insert (start + i) b (block_part size bs i) m,
)

-- the end of the range of a run of `n` blocks: the run's, or the content's
abbrev IsRunEnd : ℕ → ℕ → ℕ → ℕ → Type 0
IsRunEnd len d stop e = ((suc e ≡ stop * d) × (stop * d ≤ len)) ⊎ ((suc e ≡ len) × (len ≤ stop * d))

slice-run :
    (content : Bytes) (d start n e i : ℕ)
    → i < n
    → IsRunEnd (length content) d (start + n) e
    → slice (slice content (start * d) (suc e)) (i * d) (i * d + d) ≡ block content d (start + i)
slice-run content d start n e i h (inl (full, fits)) =
    let at : start * d + (i * d + d) ≡ (start + i) * d + d = omega arith in
    let from : start * d + i * d ≡ (start + i) * d = omega arith in
    slice-slice content (start * d) (suc e) (i * d) (i * d + d) (omega (arith, mul_step i n d h))
    ∙ rw (from, at)
slice-run content d start n e i h (inr (clamped, beyond)) =
    let at : start * d + (i * d + d) ≡ (start + i) * d + d = omega arith in
    let from : start * d + i * d ≡ (start + i) * d = omega arith in
    let whole : slice content (start * d) (suc e) ≡ slice content (start * d) ((start + n) * d) =
      slice-clip content (start * d) (suc e) (omega arith)
      ∙ sym (slice-clip content (start * d) _ beyond) in
    ap (λ (xs : Bytes). slice xs (i * d) (i * d + d)) whole
    ∙ slice-slice content (start * d) ((start + n) * d) (i * d) (i * d + d)
        (omega (arith, mul_step i n d h))
    ∙ rw (from, at)

-- where the range is (0, 0) the whole content is returned
range-Covers :
    (content : Bytes) (d start n e : ℕ)
    → 0 < d
    → IsRunEnd (length content) d (start + n) e
    → Covers content d start n (range content (start * d) e)
range-Covers content d start n e p ends i h = elim (Bool-cases ((start * d == 0) && (e == 0))) [
  | inl whole ↦
      let first : start ≡ 0 = ground (arith, mul_step 0 start d) in
      let same : start + i ≡ i = omega arith in rw (whole, same)
  | inr part ↦ rw part (slice-run content d start n e i h ends)
]

module _ (content : Bytes) (c : ReadCache) (serves : Serves content c.resource) where
  -- what a read of a run returns covers the run
  pub read_run-Covers :
      (start n : ℕ) (bs : Bytes)
      → 0 < c.block_size
      → pos_part c.size ≡ length content
      → start * c.block_size < length content
      → 0 < n
      → read_run c start (start + n) ≡ ok bs
      → Covers content c.block_size start n bs
  unfolding read_run
  read_run-Covers start n bs p sized inside some_blocks done =
      elim (Bool-cases (leb (pos_part c.size) ((start + n) * c.block_size - 1))) [
        | inl clamped ↦
            let fits = leb→le _ _ clamped in
            served (pos_part c.size - 1) (rw (read_run, clamped) at done) (omega arith)
              (inr (omega arith, omega arith))
        | inr full ↦
            let beyond = leb→lt _ _ full in
            let wide = mul_step 0 n c.block_size some_blocks in
            served ((start + n) * c.block_size - 1) (rw (read_run, full) at done) (omega arith)
              (inl (omega arith, omega arith))
      ]
    where
      served :
          (e : ℕ)
          → c.resource.read (start * c.block_size) e ≡ ok bs
          → start * c.block_size ≤ e
          → IsRunEnd (length content) c.block_size (start + n) e
          → Covers content c.block_size start n bs
      served e got le ends =
          subst (Covers content c.block_size start n) (sym (serves _ e bs le got))
            (range-Covers content c.block_size start n e p ends)
