-- ===== src/Audio/ReadCache.antt =====
-- pkg/parser/audio/readcache.go: reads are served from blocks of a fixed size, which are fetched on
-- demand. One goroutine's view: the mutex makes each access of the map one step, and what another
-- goroutine adds are blocks as well. A size that is not known is negative.
pub mod Blocks
pub mod Fetching
pub mod Gathering
pub mod Reads
pub mod Contract
use go_toolkit.Prelude.{
  ℕ, zero, suc, ◌+◌, ◌-◌, ◌*◌, ◌/◌, min, Bool, true, false, ◌&&◌, ◌||◌, Option, none, some, List,
  [], ◌∷◌, ◌++◌, ltb, leb, ◌==◌, if◌then◌else◌, Bytes, length, slice,
}
use go_toolkit.Prelude.Int.{ℤ, pos, negsuc, pos_part, neg_part, leb_ℤ}
use go_toolkit.Prelude.Assoc.{lookup, insert}
use go_toolkit.Fetcher.Resource.{Resource, Result, ok, err, ResourceErrorCode}

abbrev pub Blocks : Type 0
Blocks = List (ℕ × Bytes)

abbrev pub default_cache_block_size : ℕ
default_cache_block_size = 262_144

pub record ReadCache : Type 0 where
  pub resource : Resource
  pub size : ℤ
  pub block_size : ℕ
  pub retain : Bool
  pub blocks : Blocks

unfoldable pub new_read_cache : Resource → ℤ → ℤ → Bool → ReadCache
new_read_cache res size block_size retain = record {
  resource = res;
  size = size;
  block_size = if leb_ℤ block_size (pos 0) then default_cache_block_size else pos_part block_size;
  retain = retain;
  blocks = [];
}

unfoldable pub cache_length : ReadCache → Result ℕ
cache_length c = if leb_ℤ (pos 0) c.size then ok (pos_part c.size) else c.resource.length

unfoldable pub has_block : Blocks → ℕ → Bool
unfolding lookup
has_block m b = elim (lookup b m) [ none ↦ false | some _ ↦ true ]

-- `c.blocks[b]`: a missing key gives the nil slice
unfoldable pub block_at : Blocks → ℕ → Bytes
unfolding lookup
block_at m b = elim (lookup b m) [ none ↦ [] | some blk ↦ blk ]

-- the inner loop of fetch: the end of the run of missing blocks; the first argument counts the
-- rounds up to `last`
unfoldable pub missing_run : ℕ → Blocks → ℕ → ℕ
missing_run zero m b = b
missing_run (suc n) m b = if has_block m b then b else missing_run n m (suc b)

-- the part of a run's bytes that belongs to its block number `i`
unfoldable pub block_part : ℕ → Bytes → ℕ → Bytes
block_part block_size bs i =
    let lo = i * block_size in
    let hi = lo + block_size in
    if leb (length bs) lo then [] else slice bs lo (if ltb (length bs) hi then length bs else hi)

-- the loop that stores a run of `n` blocks, beginning at `start`, from index `i` on
unfoldable pub store_run : ℕ → ℕ → Bytes → ℕ → ℕ → Blocks → Blocks
store_run block_size start bs i zero m = m
store_run block_size start bs i (suc n) m =
    store_run block_size start bs (suc i) n (insert (start + i) (block_part block_size bs i) m)

-- the range of a run, up to the block before `stop`, and the read of it
unfoldable pub read_run : ReadCache → ℕ → ℕ → Result Bytes
read_run c start stop =
    let off = start * c.block_size in
    let end_off = stop * c.block_size - 1 in
    c.resource.read off (if leb (pos_part c.size) end_off then pos_part c.size - 1 else end_off)

-- fetch: the outer loop over the map, on the rounds left. An error ends it, and what was stored stays.
unfoldable pub fetch : ℕ → ReadCache → Blocks → ℕ → ℕ → Option ResourceErrorCode × Blocks
fetch zero c m b last = (none, m)
fetch (suc n) c m b last =
    let skip = fetch n c m (suc b) last in
    let stop = missing_run (suc last - b) m b in
    let store = λ (bs : Bytes). fetch n c (store_run c.block_size b bs 0 (stop - b) m) stop last in
    if ltb last b
    then (none, m)
    else if has_block m b
    then skip
    else elim (read_run c b stop) [ ok bs ↦ store bs | err x ↦ (some x, m) ]

-- what one block contributes to the range; `base` is the block's offset
unfoldable pub cut_block : ℕ → ℕ → ℕ → Bytes → Bytes
cut_block start end base blk =
    let lo = if ltb base start then start - base else 0 in
    let hi = min (end - base + 1) (length blk) in if ltb lo hi then slice blk lo hi else []

-- the copying loop, on the rounds left
unfoldable pub gather : ℕ → ℕ → Blocks → ℕ → ℕ → ℕ → Bytes → Bytes
gather zero block_size m start end b out = out
gather (suc n) block_size m start end b out =
    gather n block_size m start end (suc b)
      (out ++ cut_block start end (b * block_size) (block_at m b))

-- Read behind its early returns, with the end clamped to the size: what it makes of the outcome of
-- fetch, and the two in sequence
unfoldable pub copy_out :
    ReadCache → ℕ → ℕ → Option ResourceErrorCode × Blocks → Result Bytes × ReadCache
copy_out c start end (some x, m) = (err x, record c { blocks = m })
copy_out c start end (none, m) =
    let first = start / c.block_size in
    let last = end / c.block_size in
    (ok (gather (suc last - first) c.block_size m start end first []), record c { blocks = m })

unfoldable pub read_blocks : ReadCache → ℕ → ℕ → Result Bytes × ReadCache
read_blocks c start end =
    let first = start / c.block_size in
    let last = end / c.block_size in
    copy_out c start end (fetch (suc last - first) c c.blocks first last)

unfoldable pub read : ReadCache → ℕ → ℕ → Result Bytes × ReadCache
read c start end =
    if (start == 0 && end == 0) || leb_ℤ c.size (pos 0) || ltb end start
    then (c.resource.read start end, c)
    else if leb (pos_part c.size) start
    then (ok [], c)
    else read_blocks c start (if leb (pos_part c.size) end then pos_part c.size - 1 else end)
