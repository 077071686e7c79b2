-- ===== src/Audio/Durations/Totality/Frames.antt =====
-- pkg/parser/audio: the scans of ADTS frames and of Ogg pages end within their fuel.
use go_toolkit.Prelude.{
  ℕ, zero, suc, ◌+◌, ◌/◌, ◌%◌, ◌≤◌, ◌<◌, inl, inr, not, ◌||◌, Option, some, ltb, leb, ◌==◌,
  if◌then◌else◌, Bytes, length, drop, get_or, arith, Bool-cases, Option-cases, ltb→le, leb→le,
}
use go_toolkit.Prelude.Panic.{◌>>=◌, index}
use go_toolkit.Audio.Durations.Decoding.{rest-done, index-done, le_at}
use go_toolkit.Audio.Durations.Aac.{Scan, aac_sample_rates, frame_header, count_frame, scan_frames}
use go_toolkit.Audio.Durations.Ogg.{ogg_capture_pattern, no_granule, index_of, granule_loop}
use go_toolkit.Audio.Durations.Totality.{Returns, then-Returns, index-Returns, le_at-Returns}

entry_below : (b : ℕ) → Returns (index aac_sample_rates (b / 4 % 16))
entry_below b = index-Returns aac_sample_rates (b / 4 % 16) (omega arith)

pub frame_header-Returns :
    (bs : Bytes) (pos : ℕ) → pos + 7 ≤ length bs → Returns (frame_header bs pos)
unfolding frame_header
frame_header-Returns bs pos h =
    rw
      (
        index-done bs pos (omega arith),
        index-done bs (pos + 1) (omega arith),
        index-done bs (pos + 2) (omega arith),
        index-done bs (pos + 3) (omega arith),
        index-done bs (pos + 4) (omega arith),
        index-done bs (pos + 5) (omega arith),
        index-done bs (pos + 6) (omega arith),
      )
      (then-Returns (index aac_sample_rates (get_or bs (pos + 2) 0 / 4 % 16)) _
        (entry_below (get_or bs (pos + 2) 0)) (λ rate. tt))

pub scan_frames-Returns :
    (fuel : ℕ) (bs : Bytes) (pos : ℕ) (st : Scan)
    → 0 < fuel
    → length bs < pos + fuel
    → Returns (scan_frames fuel bs pos st)
unfolding scan_frames
scan_frames-Returns zero bs pos st p h = absurd (omega arith)
scan_frames-Returns (suc fuel) bs pos st p h = elim (Bool-cases (leb (pos + 7) (length bs))) [
  | inr over ↦ rw (over, scan_frames) tt
  | inl more ↦
      let inside = leb→le (pos + 7) (length bs) more in
      rw (more, scan_frames)
        (then-Returns (frame_header bs pos) _ (frame_header-Returns bs pos inside) (λ f.
          elim (Bool-cases (not f.synced || f.rate == 0 || ltb f.frame_len 7)) [
            | inl skip ↦
                rw skip (scan_frames-Returns fuel bs (pos + 1) st (omega arith) (omega arith))
            | inr frame ↦ elim (Bool-cases (ltb (length bs) (pos + f.frame_len))) [
              | inl cut ↦ rw (frame, cut) tt
              | inr whole ↦
                  let long : 7 ≤ f.frame_len = ground (arith, frame) in
                  let fits = ltb→le (length bs) (pos + f.frame_len) whole in
                  rw (frame, whole)
                    (scan_frames-Returns fuel bs (pos + f.frame_len) (count_frame f pos st)
                      (omega arith) (omega arith))
            ]
          ]))
]

pub granule_loop-Returns :
    (fuel : ℕ) (tail : Bytes) (i : ℕ) (found : Option ℕ)
    → 0 < fuel
    → length tail < i + fuel
    → Returns (granule_loop fuel tail i found)
unfolding granule_loop
granule_loop-Returns zero tail i found p h = absurd (omega arith)
granule_loop-Returns (suc fuel) tail i found p h = elim (Bool-cases (leb (i + 27) (length tail))) [
  | inr over ↦ rw (over, granule_loop) tt
  | inl more ↦ elim (Option-cases (index_of (drop i tail) ogg_capture_pattern)) [
    | inl missing ↦
        rw (more, granule_loop, rest-done tail i (ground (arith, more)), ◌>>=◌, missing) tt
    | inr (idx, at) ↦ elim (Bool-cases (ltb (length tail) (i + idx + 27))) [
      | inl cut ↦
          rw (more, granule_loop, rest-done tail i (ground (arith, more)), ◌>>=◌, at, cut) tt
      | inr whole ↦
          let fits = ltb→le (length tail) (i + idx + 27) whole in
          rw (more, granule_loop, rest-done tail i (ground (arith, more)), ◌>>=◌, at, whole)
            (then-Returns (le_at tail (i + idx + 6) (i + idx + 14)) _
              (le_at-Returns tail (i + idx + 6) (i + idx + 14) (omega arith) (omega arith))
              (λ g.
                granule_loop-Returns fuel tail (i + idx + 4)
                  (if g == no_granule then found else some g) (omega arith) (omega arith)))
    ]
  ]
]
