-- ===== src/Audio/RetainedCache/Prefix.antt =====
-- pkg/parser/audio/servecache.go: prefix returns the longest cached run of bytes at an offset.
use go_toolkit.Prelude.{
  ℕ, zero, suc, ◌+◌, ◌-◌, ◌*◌, ◌/◌, ◌≤◌, ◌<◌, ◌≡◌, ap, sym, ◌∙◌, ◌⊎◌, inl, inr, min, true, false,
  ◌||◌, [], ◌++◌, ltb, leb, lt→leb, ltb→le, ltb→lt, Bytes, length, slice as sub_slice, slice-append,
  slice-slice, slice-empty, arith, Bool-cases, Option-cases, if◌then◌else◌,
}
use go_toolkit.Prelude.Int.{pos, pos_part, leb_ℤ}
use go_toolkit.Prelude.Assoc.{lookup}
use go_toolkit.Audio.ReadCache.{has_block}
use go_toolkit.Audio.ReadCache.Gathering.{quotient_below, quotient_above}
use go_toolkit.Audio.RetainedCache.{RetainedCache, prefix_loop, prefix}
use go_toolkit.Audio.RetainedCache.Slice.{IsValid, clamped, length-block}

-- `run` is what the cache holds of the content from `start` on, up to `end` or to the first block
-- that is not cached
abbrev pub IsCachedRun : Bytes → RetainedCache → ℕ → ℕ → Bytes → Type 0
IsCachedRun content c start end run =
    (stop : ℕ) × (run ≡ sub_slice content start stop)
    × (start ≤ stop)
    × (stop ≤ suc end)
    × ((stop ≡ suc end) ⊎ (has_block c.blocks (stop / c.block_size) ≡ false))

last_round :
    (base end len : ℕ)
    → base ≤ end
    → (ltb (min (end - base + 1) len) len || ltb end (base + min (end - base + 1) len)) ≡ true
    → base + min (end - base + 1) len ≡ suc end
last_round base end len h e = ground arith

module _ (content : Bytes) (c : RetainedCache) (v : IsValid content c) (start end : ℕ)
    (el : end < length content) where
  prefix_loop-IsCachedRun :
      (f at : ℕ) (out : Bytes)
      → start ≤ at
      → at ≤ suc end
      → suc end - at ≤ f
      → out ≡ sub_slice content start at
      → IsCachedRun content c start end (prefix_loop f c end at out)
  unfolding prefix_loop
  prefix_loop-IsCachedRun zero at out sa ae enough e = (at, e, sa, ae, inl (omega arith))
  prefix_loop-IsCachedRun (suc f) at out sa ae enough e = elim (Bool-cases (ltb end at)) [
    | inl over ↦ rw over (at, e, sa, ae, inl (omega (arith, ltb→lt _ _ over)))
    | inr within ↦ elim (Option-cases (lookup (at / c.block_size) c.blocks)) [
      | inl missing ↦
          rw (within, missing) (at, e, sa, ae, inr (unfold has_block in rw (missing, has_block)))
      | inr (blk, found) ↦
          let base = at / c.block_size * c.block_size in
          let below = quotient_below at c.block_size v.positive in
          let above = quotient_above at c.block_size v.positive in
          let same = v.cached (at / c.block_size) blk found in
          let len : length blk ≡ min c.block_size (length content - base) =
            ap length same ∙ length-block content c.block_size (at / c.block_size) in
          let hi = min (end - base + 1) (length blk) in
          let from : base + (at - base) ≡ at = omega arith in
          let inside = ltb→le end at within in
          let advances : leb hi (at - base) ≡ false = lt→leb _ _ (omega arith) in
          let piece : sub_slice blk (at - base) hi ≡ sub_slice content at (base + hi) =
            ap (λ (xs : Bytes). sub_slice xs (at - base) hi) same
            ∙ slice-slice content base (base + c.block_size) (at - base) hi (omega arith)
            ∙ rw from in
          let joined : out ++ sub_slice blk (at - base) hi ≡ sub_slice content start (base + hi) =
            rw (e, piece) (slice-append content start at (base + hi) sa (omega arith)) in
          elim (Bool-cases (ltb hi (length blk) || ltb end (base + hi))) [
            | inl last ↦
                rw (within, found, advances, last)
                  (
                    base + hi,
                    joined,
                    omega arith,
                    omega arith,
                    inl (last_round base end (length blk) (omega arith) last),
                  )
            | inr more ↦
                rw (within, found, advances, more)
                  (prefix_loop-IsCachedRun f (base + hi) _ (omega arith) (omega arith) (omega arith)
                    joined)
          ]
    ]
  ]

-- In a valid cache, for a range in order that begins within the content, prefix returns the content
-- from the start up to a stop that is either the end of the range, clamped to the content, or lies
-- in a block that is not cached.
pub prefix-IsCachedRun :
    (content : Bytes) (c : RetainedCache) (start end : ℕ)
    → IsValid content c
    → start ≤ end
    → start < pos_part c.size
    → IsCachedRun content c start (clamped c end) (prefix c start end)
unfolding prefix
prefix-IsCachedRun content c start end v se inside =
    let known : (leb_ℤ c.size (pos 0) || ltb end start || leb (pos_part c.size) start) ≡ false =
      ground arith in
    let stop : (if leb (pos_part c.size) end then pos_part c.size - 1 else end) ≡ clamped c end =
      ground arith in
    rw (known, stop)
      (prefix_loop-IsCachedRun content c v start (clamped c end) (omega (arith, v.sized)) _ start []
        (omega arith) (omega arith) (omega arith)
        (sym (slice-empty content start start (omega arith))))
