-- ===== src/Audio/ReadCache/Gathering.antt =====
-- pkg/parser/audio/readcache.go: the copying loop of Read cuts the range out of the blocks.
use Prim.Native.Nat.{max}
use go_toolkit.Prelude.{
  ℕ, zero, suc, ◌+◌, ◌-◌, ◌*◌, ◌/◌, ◌≤◌, ◌<◌, ◌≡◌, refl, ap, ◌∙◌, inl, inr, min, true, [], ltb,
  lt→ltb, if◌then◌else◌, Bytes, length, slice, length-slice, slice-slice, slice-append, slice-empty,
  arith, Option-cases,
}
use go_toolkit.Prelude.Assoc.{lookup}
use go_toolkit.Audio.ReadCache.{Blocks, has_block, block_at, cut_block, gather}
use go_toolkit.Audio.ReadCache.Blocks.{IsCached, block}

-- the offset up to which the range has been copied when the copying reaches `x`
abbrev pub reached : ℕ → ℕ → ℕ → ℕ
reached start end x = max start (min (suc end) x)

cut_block-bounds :
    (start end base : ℕ) (blk : Bytes) (lo hi : ℕ)
    → lo ≡ start - base
    → hi ≡ min (end - base + 1) (length blk)
    → lo < hi
    → cut_block start end base blk ≡ slice blk lo hi
unfolding cut_block
cut_block-bounds start end base blk lo hi el eh h =
    let tested : (if ltb base start then start - base else 0) ≡ lo = ground arith in
    rw (tested, ← eh, lt→ltb lo hi h)

pub cut_block-slice :
    (content : Bytes) (start end base d : ℕ) (blk : Bytes)
    → 0 < d
    → start ≤ end
    → base ≤ end
    → start < base + d
    → end < length content
    → blk ≡ slice content base (base + d)
    → cut_block start end base blk
      ≡ slice content (reached start end base) (reached start end (base + d))
cut_block-slice content start end base d blk p se be sd el e =
    let len : length blk ≡ min d (length content - base) =
      ap length e ∙ length-slice content base (base + d) ∙ (omega arith) in
    let hi = min (end - base + 1) d in
    let from : base + (start - base) ≡ reached start end base = omega arith in
    let to : base + hi ≡ reached start end (base + d) = omega arith in
    cut_block-bounds start end base blk (start - base) hi refl (omega arith) (omega arith)
    ∙ ap (λ (xs : Bytes). slice xs (start - base) hi) e
    ∙ slice-slice content base (base + d) (start - base) hi (omega arith)
    ∙ rw (from, to)

pub block_at-block :
    (content : Bytes) (d : ℕ) (m : Blocks) (b : ℕ)
    → IsCached content d m
    → has_block m b ≡ true
    → block_at m b ≡ block content d b
unfolding has_block block_at
block_at-block content d m b cached there = elim (Option-cases (lookup b m)) [
  | inl missing ↦ absurd (ground arith)
  | inr (blk, found) ↦ rw (block_at, found) (cached b blk found)
]

module _ (content : Bytes) (d : ℕ) (m : Blocks) (start end : ℕ) (p : 0 < d) (se : start ≤ end)
    (el : end < length content) (cached : IsCached content d m) where
  gather-slice :
      (n b : ℕ) (out : Bytes)
      → (b + n) * d ≤ end + d
      → start < b * d + d
      → ((j : ℕ) → b ≤ j → j < b + n → has_block m j ≡ true)
      → out ≡ slice content start (reached start end (b * d))
      → gather n d m start end b out ≡ slice content start (reached start end ((b + n) * d))
  unfolding gather
  gather-slice zero b out within at there e = let same : b ≡ b + 0 = omega arith in rw (← same) e
  gather-slice (suc n) b out within at there e =
      let next : b * d + d ≡ suc b * d = omega arith in
      let last : b + suc n ≡ suc b + n = omega arith in
      let copied =
        cut_block-slice content start end (b * d) d (block_at m b) p se (omega arith) at el
          (block_at-block content d m b cached (there b (omega arith) (omega arith))) in
      let joined =
        slice-append content start (reached start end (b * d)) (reached start end (b * d + d))
          (omega arith) (omega arith) in
      rw last (
        gather-slice n (suc b) _ (rw (← last) within) (omega arith)
          (λ j lo hi. there j (omega arith) (omega arith)) (rw (e, copied, joined, next)))

pub quotient_below : (n d : ℕ) → 0 < d → n / d * d ≤ n
quotient_below n d p = grind arith

pub quotient_above : (n d : ℕ) → 0 < d → n < n / d * d + d
quotient_above n d p = grind arith

pub quotient_mono : (a b d : ℕ) → 0 < d → a ≤ b → a / d ≤ b / d
quotient_mono a b d p h = grind arith

module _ (content : Bytes) (d : ℕ) (start end : ℕ) (p : 0 < d) (se : start ≤ end)
    (el : end < length content) where
  pub gather_all :
      (m : Blocks)
      → IsCached content d m
      → ((j : ℕ) → start / d ≤ j → j ≤ end / d → has_block m j ≡ true)
      → gather (suc (end / d) - start / d) d m start end (start / d) []
        ≡ slice content start (suc end)
  gather_all m cached there =
      let q = end / d in
      let f = start / d in
      let fq = quotient_mono start end d p se in
      let below_q = quotient_below end d p in
      let above_q = quotient_above end d p in
      let below_f = quotient_below start d p in
      let above_f = quotient_above start d p in
      let count : f + (suc q - f) ≡ suc q = omega arith in
      let all_of_it : reached start end (suc q * d) ≡ suc end = omega arith in
      let none_of_it : reached start end (f * d) ≡ start = omega arith in
      gather-slice content d m start end p se el cached (suc q - f) f [] (rw count (omega arith))
        above_f (λ j lo hi. there j lo (omega arith))
        (rw (none_of_it, slice-empty content start start (omega arith)))
      ∙ rw (count, all_of_it)
