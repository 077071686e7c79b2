-- ===== src/Audio/Durations/LastPage.antt =====
-- pkg/parser/audio/ogg.go: which granule lastOggGranule returns.
use go_toolkit.Prelude.{
  ℕ, zero, suc, ◌+◌, ◌-◌, ◌≤◌, ◌<◌, ◌≡◌, refl, ap, ◌∙◌, ◌⊎◌, inl, inr, true, Option, none, some,
  ltb, leb, ◌==◌, if◌then◌else◌, Bytes, length, drop, drop-drop, arith, Bool-cases, Option-cases,
  ltb→le, leb→lt,
}
use go_toolkit.Prelude.Panic.{◌>>=◌, Ends, Ends-map}
use go_toolkit.Audio.Durations.Decoding.{rest-done, has_prefix, le_at-done}
use go_toolkit.Audio.Durations.Ogg.{
  ogg_capture_pattern, index_of, no_granule, granule_loop, last_ogg_granule,
}
use go_toolkit.Audio.Durations.OggPages.{
  granule_at, AllEmpty, IsLastPage, index_of-found, index_of-missing, patterns_apart,
}

-- The granule is that of the last page from `i` on that has one; without one it is what was found.
abbrev IsLastFrom : Bytes → ℕ → Option ℕ → Option ℕ → Type 0
IsLastFrom tail i found g =
    ((q : ℕ) × (i ≤ q) × IsLastPage tail q × (g ≡ some (granule_at tail q)))
    ⊎ ((g ≡ found) × AllEmpty tail i)

-- one round, at a page that begins `idx` behind `i`
page_round :
    (tail : Bytes) (i idx : ℕ) (found g : Option ℕ)
    → index_of (drop i tail) ogg_capture_pattern ≡ some idx
    → i + idx + 27 ≤ length tail
    → IsLastFrom tail
        (i + idx + 4)
        (if granule_at tail (i + idx) == no_granule
          then found
          else some (granule_at tail (i + idx)))
        g
    → IsLastFrom tail i found g
page_round tail i idx found g at fits (inl (q, iq, last, e)) = inl (q, omega arith, last, e)
page_round tail i idx found g at fits (inr (e, empty)) =
    let pos = i + idx in
    let begins : has_prefix (drop pos tail) ogg_capture_pattern ≡ true =
      rw (← drop-drop i idx pos tail refl) ((index_of-found (drop i tail) idx 0 at).0) in
    let beyond : AllEmpty tail (suc pos) =
      λ p h page. empty p (patterns_apart tail pos p begins page.0 (omega arith)) page in
    elim (Bool-cases (granule_at tail pos == no_granule)) [
      | inr valid ↦ inl (
        pos,
        omega arith,
        ((begins, fits), ground (arith, valid), beyond),
        ground (arith, e, valid),
      )
      | inl void ↦ inr (
        ground (arith, e, void),
        λ p h page. elim (Bool-cases (ltb p pos)) [
          | inl before ↦
              let no_page =
                (index_of-found (drop i tail) idx (p - i) at).1 (ground (arith, before)) in
              let there = drop-drop i (p - i) p tail (omega arith) in
              absurd
                (ground (arith, page.0, no_page, ap (λ t. has_prefix t ogg_capture_pattern) there))
          | inr behind ↦ elim (Bool-cases (p == pos)) [
            | inl same ↦
                let same' : p ≡ pos = ground (arith, same) in
                ap (granule_at tail) same' ∙ ground (arith, void)
            | inr further ↦ beyond p (ground (arith, behind, further)) page
          ]
        ],
      )
    ]

granule_loop-IsLastFrom :
    (fuel : ℕ) (tail : Bytes) (i : ℕ) (found : Option ℕ)
    → 0 < fuel
    → length tail < i + fuel
    → Ends (IsLastFrom tail i found) (granule_loop fuel tail i found)
unfolding granule_loop
granule_loop-IsLastFrom zero tail i found p h = absurd (omega arith)
granule_loop-IsLastFrom (suc fuel) tail i found p h =
    elim (Bool-cases (leb (i + 27) (length tail))) [
      | inr over ↦
          rw (over, granule_loop)
            (inr (refl, λ q iq page. absurd (omega (arith, leb→lt (i + 27) (length tail) over))))
      | inl more ↦ elim (Option-cases (index_of (drop i tail) ogg_capture_pattern)) [
        | inl missing ↦
            rw (more, granule_loop, rest-done tail i (ground (arith, more)), ◌>>=◌, missing)
              (inr (
                refl,
                λ q iq page.
                    let no_page = index_of-missing (drop i tail) (q - i) missing in
                    let there = drop-drop i (q - i) q tail (omega arith) in
                    absurd (
                      ground
                        (arith, page.0, no_page, ap (λ t. has_prefix t ogg_capture_pattern) there)),
              ))
        | inr (idx, at) ↦ elim (Bool-cases (ltb (length tail) (i + idx + 27))) [
          | inl cut ↦
              rw (more, granule_loop, rest-done tail i (ground (arith, more)), ◌>>=◌, at, cut)
                (inr (
                  refl,
                  λ q iq page.
                      let before : q - i < idx = ground (arith, cut, page.1) in
                      let no_page = (index_of-found (drop i tail) idx (q - i) at).1 before in
                      let there = drop-drop i (q - i) q tail (omega arith) in
                      absurd (
                        ground (
                          arith,
                          page.0,
                          no_page,
                          ap (λ t. has_prefix t ogg_capture_pattern) there,
                        )),
                ))
          | inr whole ↦
              let fits = ltb→le (length tail) (i + idx + 27) whole in
              rw
                (
                  more,
                  granule_loop,
                  rest-done tail i (ground (arith, more)),
                  ◌>>=◌,
                  at,
                  whole,
                  le_at-done tail (i + idx + 6) (i + idx + 14) (omega arith) (omega arith),
                )
                (let found' =
                    if granule_at tail (i + idx) == no_granule
                    then found
                    else some (granule_at tail (i + idx)) in
                  Ends-map (IsLastFrom tail (i + idx + 4) found') (IsLastFrom tail i found)
                    (granule_loop fuel tail (i + idx + 4) found')
                    (granule_loop-IsLastFrom fuel tail (i + idx + 4) found' (omega arith)
                      (omega arith))
                    (λ g last. page_round tail i idx found g at fits last))
        ]
      ]
    ]

abbrev pub IsLastGranule : Bytes → Option ℕ → Type 0
IsLastGranule tail g =
    ((q : ℕ) × IsLastPage tail q × (g ≡ some (granule_at tail q))) ⊎ ((g ≡ none) × AllEmpty tail 0)

from_start : (tail : Bytes) (g : Option ℕ) → IsLastFrom tail 0 none g → IsLastGranule tail g
from_start tail g (inl (q, iq, last, e)) = inl (q, last, e)
from_start tail g (inr (e, empty)) = inr (e, empty)

-- lastOggGranule returns. A granule that it returns is that of the last page of the window with a
-- granule other than -1; if it returns none, then no page of the window has one.
pub last_ogg_granule-IsLastGranule :
    (tail : Bytes) → Ends (IsLastGranule tail) (last_ogg_granule tail)
unfolding last_ogg_granule
last_ogg_granule-IsLastGranule tail =
    Ends-map (IsLastFrom tail 0 none) (IsLastGranule tail)
      (granule_loop (suc (length tail)) tail 0 none)
      (granule_loop-IsLastFrom (suc (length tail)) tail 0 none (omega arith) (omega arith))
      (from_start tail)
