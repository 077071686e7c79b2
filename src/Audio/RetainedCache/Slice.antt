-- ===== src/Audio/RetainedCache/Slice.antt =====
-- pkg/parser/audio/servecache.go: slice returns the range exactly if all its blocks are cached.
use go_toolkit.Prelude.{
  ℕ, zero, suc, ◌+◌, ◌-◌, ◌*◌, ◌/◌, ◌≤◌, ◌<◌, ◌≡◌, refl, ap, ◌∙◌, ◌⊎◌, inl, inr, min, true, false,
  ◌&&◌, ◌||◌, none, some, [], ltb, leb, ◌==◌, le→ltb, lt→ltb, Bytes, length, slice as sub_slice,
  length-slice, slice-empty, arith, Bool-cases, Option-cases, if◌then◌else◌,
}
use go_toolkit.Prelude.Int.{pos, pos_part, leb_ℤ}
use go_toolkit.Prelude.Assoc.{lookup}
use go_toolkit.Prelude.Panic.{done, panic, checked_slice}
use go_toolkit.Audio.ReadCache.{has_block, block_at, cut_block, gather}
use go_toolkit.Audio.ReadCache.Blocks.{IsCached, block}
use go_toolkit.Audio.ReadCache.Gathering.{
  block_at-block, gather_all, quotient_below, quotient_above, quotient_mono,
}
use go_toolkit.Audio.RetainedCache.{RetainedCache, covered, collect, slice_within, slice}

pub record IsValid (content : Bytes) (c : RetainedCache) : Type 0 where
  pub positive : 0 < c.block_size
  pub sized : 0 < pos_part c.size → pos_part c.size ≡ length content
  pub cached : IsCached content c.block_size c.blocks

-- some block of a span of blocks is missing
abbrev pub Misses : RetainedCache → ℕ → ℕ → Type 0
Misses c first last = (j : ℕ) × (first ≤ j) × (j ≤ last) × (has_block c.blocks j ≡ false)

-- all blocks of a span of blocks are there
abbrev pub Holds : RetainedCache → ℕ → ℕ → Type 0
Holds c first last = (j : ℕ) → first ≤ j → j ≤ last → has_block c.blocks j ≡ true

-- the length of a block that begins within the content
pub length-block :
    (content : Bytes) (d b : ℕ) → length (block content d b) ≡ min d (length content - b * d)
length-block content d b = length-slice content (b * d) (b * d + d) ∙ (omega arith)

-- the run-time check of a copy passes, and the copy is the block's part of the range
checked_slice-cut_block :
    (start end base : ℕ) (blk : Bytes)
    → start ≤ end
    → base ≤ end
    → start - base ≤ length blk
    → checked_slice blk
        (if ltb base start then start - base else 0)
        (min (end - base + 1) (length blk))
      ≡ done (cut_block start end base blk)
unfolding checked_slice cut_block
checked_slice-cut_block start end base blk se be fits =
    let empty =
      slice-empty blk (if ltb base start then start - base else 0)
        (min (end - base + 1) (length blk)) in
    ground (arith, empty)

module _ (content : Bytes) (c : RetainedCache) (v : IsValid content c) (end : ℕ)
    (el : end < length content) where
  -- of a block that is cached, the needed part is present
  covered_step :
      (n b : ℕ)
      → b * c.block_size ≤ end
      → covered (suc n) c end b ≡ (has_block c.blocks b && covered n c end (suc b))
  unfolding covered has_block
  covered_step n b be = elim (Option-cases (lookup b c.blocks)) [
    | inl missing ↦ rw (missing, covered, has_block)
    | inr (blk, found) ↦
        let len : length blk ≡ min c.block_size (length content - b * c.block_size) =
          ap length (v.cached b blk found) ∙ length-block content c.block_size b in
        rw (found, covered, has_block) (ground (arith, len, v.positive))
  ]

  covered_cases :
      (n b : ℕ)
      → (b + n) * c.block_size ≤ end + c.block_size
      → ((covered n c end b ≡ true) × ((j : ℕ) → b ≤ j → j < b + n → has_block c.blocks j ≡ true))
        ⊎ ((covered n c end b ≡ false)
            × ((j : ℕ) × (b ≤ j) × (j < b + n) × (has_block c.blocks j ≡ false)))
  covered_cases zero b within = inl (unfold covered in refl, λ j lo hi. absurd (omega arith))
  covered_cases (suc n) b within =
      let more : b + suc n ≡ suc b + n = omega arith in
      let step = covered_step n b (omega arith) in
      elim (Bool-cases (has_block c.blocks b)) [
        | inl there ↦
            rw (step, there)
              (elim (covered_cases n (suc b) (rw (← more) within)) [
                | inl (all, present) ↦ inl (
                  all,
                  λ j lo hi. elim (Bool-cases (j == b)) [
                    | inl here ↦ let same : b ≡ j = ground arith in rw (← same) there
                    | inr later ↦ present j (ground arith) (omega arith)
                  ],
                )
                | inr (not_all, (j, lo, hi, missing)) ↦
                    inr (not_all, (j, omega arith, omega arith, missing))
              ])
        | inr missing ↦ rw (step, missing) (inr (refl, (b, omega arith, omega arith, missing)))
      ]

  -- copying with the run-time checks is copying without them
  collect-gather :
      (start n b : ℕ) (out : Bytes)
      → start ≤ end
      → (b + n) * c.block_size ≤ end + c.block_size
      → start < b * c.block_size + c.block_size
      → ((j : ℕ) → b ≤ j → j < b + n → has_block c.blocks j ≡ true)
      → collect n c start end b out ≡ done (gather n c.block_size c.blocks start end b out)
  unfolding collect gather
  collect-gather start zero b out se within at there = refl
  collect-gather start (suc n) b out se within at there =
      let more : b + suc n ≡ suc b + n = omega arith in
      let blk = block_at c.blocks b in
      let found =
        block_at-block content c.block_size c.blocks b v.cached
          (there b (omega arith) (omega arith)) in
      let len = ap length found ∙ length-block content c.block_size b in
      let next : suc b * c.block_size ≡ b * c.block_size + c.block_size = omega arith in
      rw
        (checked_slice-cut_block start end (b * c.block_size) blk se (omega arith)
          (omega (arith, len)))
        (collect-gather start n (suc b) _ se (rw (← more) within) (omega arith)
          (λ j lo hi. there j (omega arith) (omega arith)))

  -- Within the content, slice returns the range if all its blocks are cached, and else reports a
  -- miss.
  pub slice_within_cases :
      (start : ℕ)
      → start ≤ end
      → (Holds c (start / c.block_size) (end / c.block_size)
          × (slice_within c start end ≡ done (some (sub_slice content start (suc end)))))
        ⊎ (Misses c (start / c.block_size) (end / c.block_size)
            × (slice_within c start end ≡ done none))
  unfolding slice_within
  slice_within_cases start se =
      let first = start / c.block_size in
      let last = end / c.block_size in
      let order = quotient_mono start end c.block_size v.positive se in
      let below = quotient_below end c.block_size v.positive in
      let count : first + (suc last - first) ≡ suc last = omega arith in
      let within : (first + (suc last - first)) * c.block_size ≤ end + c.block_size =
        rw count (omega arith) in
      let room : ltb (suc end) start ≡ false = le→ltb _ _ (omega arith) in
      elim (covered_cases (suc last - first) first within) [
        | inl (all, present) ↦
            let there : Holds c first last = λ j lo hi. present j lo (omega arith) in
            inl (
              there,
              rw (
                all,
                room,
                collect-gather start (suc last - first) first [] se within
                    (quotient_above start c.block_size v.positive) present,
                gather_all content c.block_size start end v.positive se el c.blocks v.cached there,
              ),
            )
        | inr (not_all, (j, lo, hi, missing)) ↦ inr ((j, lo, omega arith, missing), rw not_all)
      ]

-- the end of a range, clamped to the size
abbrev pub clamped : RetainedCache → ℕ → ℕ
clamped c end = min end (pos_part c.size - 1)

slice-slice_within :
    (c : RetainedCache) (start end : ℕ)
    → start ≤ end
    → 0 < pos_part c.size
    → slice c start end ≡ slice_within c start (clamped c end)
unfolding slice
slice-slice_within c start end se k =
    let known : (leb_ℤ c.size (pos 0) || ltb end start) ≡ false = ground arith in
    let stop : (if leb (pos_part c.size) end then pos_part c.size - 1 else end) ≡ clamped c end =
      ground arith in
    rw (known, stop)

-- In a valid cache, for a range in order that begins within the content, slice returns the range,
-- clamped to the content, if all blocks of it are cached; if one is missing it reports a miss.
pub slice_cases :
    (content : Bytes) (c : RetainedCache) (start end : ℕ)
    → IsValid content c
    → start ≤ end
    → start < pos_part c.size
    → (Holds c (start / c.block_size) (clamped c end / c.block_size)
        × (slice c start end ≡ done (some (sub_slice content start (suc (clamped c end))))))
      ⊎ (Misses c (start / c.block_size) (clamped c end / c.block_size)
          × (slice c start end ≡ done none))
slice_cases content c start end v se inside =
    rw (slice-slice_within c start end se (omega arith))
      (slice_within_cases content c v (clamped c end) (omega (arith, v.sized)) start (omega arith))

-- A range that begins behind the last block of the content, more than one byte past its end, makes
-- slice panic: its guards let the range through, and `make` is given a negative capacity.
pub slice-past_panics :
    (c : RetainedCache) (start end : ℕ)
    → 0 < pos_part c.size
    → pos_part c.size < start
    → start ≤ end
    → (pos_part c.size - 1) / c.block_size < start / c.block_size
    → slice c start end ≡ panic
unfolding slice_within covered
slice-past_panics c start end k beyond se apart =
    let stop : clamped c end ≡ pos_part c.size - 1 = omega arith in
    let no_blocks : suc ((pos_part c.size - 1) / c.block_size) - start / c.block_size ≡ 0 =
      omega arith in
    let negative : ltb (suc (pos_part c.size - 1)) start ≡ true = lt→ltb _ _ (omega arith) in
    rw (slice-slice_within c start end se k, stop, slice_within, no_blocks, covered, negative)
