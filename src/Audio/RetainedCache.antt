-- ===== src/Audio/RetainedCache.antt =====
-- pkg/parser/audio/servecache.go: retainedCache, the blocks that probing left, read only. Offsets
-- are non-negative, so that the tests `start < 0` are left out.
pub mod Slice
pub mod Prefix
use go_toolkit.Prelude.{
  ℕ, zero, suc, ◌+◌, ◌-◌, ◌*◌, ◌/◌, min, Bool, true, false, not, ◌&&◌, ◌||◌, Option, none, some,
  List, [], ◌++◌, ltb, leb, ◌==◌, if◌then◌else◌, Bytes, length, slice as sub_slice,
}
use go_toolkit.Prelude.Int.{ℤ, pos, pos_part, leb_ℤ}
use go_toolkit.Prelude.Assoc.{lookup}
use go_toolkit.Prelude.Panic.{Run, done, panic, ◌>>=◌, checked_slice}
use go_toolkit.Audio.ReadCache.{ReadCache, Blocks, block_at}

pub record RetainedCache : Type 0 where
  pub size : ℤ
  pub block_size : ℕ
  pub blocks : Blocks

-- readCache.snapshot
unfoldable pub snapshot : ReadCache → Option RetainedCache
snapshot c =
    if length c.blocks == 0 || leb_ℤ c.size (pos 0)
    then none
    else some (record { size = c.size; block_size = c.block_size; blocks = c.blocks })

-- the loop that looks for the blocks of a range, on the rounds left
unfoldable pub covered : ℕ → RetainedCache → ℕ → ℕ → Bool
covered zero c end b = true
covered (suc n) c end b = elim (lookup b c.blocks) [
  | none ↦ false
  | some blk ↦
      let base = b * c.block_size in
      let block_end = base + c.block_size - 1 in
      let need_end = if ltb block_end end then block_end else end in
      not (leb (length blk) (need_end - base)) && covered n c end (suc b)
]

-- the loop that copies the blocks of a range, on the rounds left
unfoldable pub collect : ℕ → RetainedCache → ℕ → ℕ → ℕ → Bytes → Run Bytes
collect zero c start end b out = done out
collect (suc n) c start end b out =
    let blk = block_at c.blocks b in
    let base = b * c.block_size in
    let lo = if ltb base start then start - base else 0 in
    let hi = min (end - base + 1) (length blk) in
    checked_slice blk lo hi >>= λ piece. collect n c start end (suc b) (out ++ piece)

-- slice behind its early return, with the end clamped; `make` panics at a negative capacity
unfoldable pub slice_within : RetainedCache → ℕ → ℕ → Run (Option Bytes)
slice_within c start end =
    let first = start / c.block_size in
    let last = end / c.block_size in
    if covered (suc last - first) c end first
    then (if ltb (suc end) start
        then panic
        else (collect (suc last - first) c start end first [] >>= λ out. done (some out)))
    else done none

-- `none` stands for the result `nil, false`
unfoldable pub slice : RetainedCache → ℕ → ℕ → Run (Option Bytes)
slice c start end =
    if leb_ℤ c.size (pos 0) || ltb end start
    then done none
    else slice_within c start (if leb (pos_part c.size) end then pos_part c.size - 1 else end)

-- readCache.cachedSlice
unfoldable pub cached_slice : ReadCache → ℕ → ℕ → Run (Option Bytes)
cached_slice c = slice (record { size = c.size; block_size = c.block_size; blocks = c.blocks })

-- the loop of prefix; `at` is its `pos`, which every round advances
unfoldable pub prefix_loop : ℕ → RetainedCache → ℕ → ℕ → Bytes → Bytes
prefix_loop zero c end at out = out
prefix_loop (suc f) c end at out =
    let base = at / c.block_size * c.block_size in
    let lo = at - base in
    if ltb end at then out else elim (lookup (at / c.block_size) c.blocks) [
      | none ↦ out
      | some blk ↦
          let hi = min (end - base + 1) (length blk) in
          let out' = out ++ sub_slice blk lo hi in
          let rest = prefix_loop f c end (base + hi) out' in
          if leb hi lo
          then out
          else if ltb hi (length blk) || ltb end (base + hi)
          then out'
          else rest
    ]

unfoldable pub prefix : RetainedCache → ℕ → ℕ → Bytes
prefix c start end =
    let end' = if leb (pos_part c.size) end then pos_part c.size - 1 else end in
    if leb_ℤ c.size (pos 0) || ltb end start || leb (pos_part c.size) start
    then []
    else prefix_loop (suc end' - start) c end' start []
