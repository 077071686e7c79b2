-- ===== src/Search/Library/Sums.antt =====
-- pkg/search/corpus.go: the cumulative lengths of a corpus, and that progressions stay within 0..1.
use mathlib.Core.Path.{subst}
use go_toolkit.Prelude.{
  ℕ, zero, suc, ◌+◌, ◌≤◌, ◌<◌, ◌≡◌, refl, sym, ap, ◌∙◌, inl, inr, Bool, Option, none, some, List,
  [], ◌∷◌, ◌++◌, ltb, Bytes, length, get_or, get_elem?, arith, Bool-cases, Option-cases, ltb→lt,
}
use go_toolkit.Prelude.Int.{ℤ, pos, negsuc}
use go_toolkit.Prelude.Assoc.{lookup}
use go_toolkit.Positions.Locators.{Ratio}
use go_toolkit.Search.Text.{Unicode}
use go_toolkit.Search.Corpus.{Token, ResourceText, extract_resource}
use go_toolkit.Search.Library.{
  Resource, Corpus, empty_corpus, add_resource, build_round, build_loop, build, limit_of,
  clamp_offset, ratio_of, progressions_in, progressions_at,
}

-- the lengths of the plain texts before each resource, and behind the last, from `k` on
abbrev pub sums : ℕ → List ResourceText → List ℕ
sums k [] = k ∷ []
sums k (r ∷ rs) = k ∷ sums (k + length r.plain) rs

abbrev pub total : List ResourceText → ℕ
total [] = 0
total (r ∷ rs) = length r.plain + total rs

sums-append :
    (k n : ℕ) (rs : List ResourceText) (r : ResourceText)
    → k + total rs + length r.plain ≡ n
    → sums k (rs ++ r ∷ []) ≡ sums k rs ++ n ∷ []
sums-append k n [] r e = ap (λ j. k ∷ j ∷ []) (omega arith)
sums-append k n (x ∷ rs) r e = ap (◌∷◌ k) (sums-append (k + length x.plain) n rs r (omega arith))

total-append :
    (rs : List ResourceText) (r : ResourceText) → total (rs ++ r ∷ []) ≡ total rs + length r.plain
total-append [] r = omega arith
total-append (x ∷ rs) r = omega (arith, total-append rs r)

-- The cumulative lengths and the total of the resources.
pub record IsSummed (c : Corpus) : Type 0 where
  pub cumulative : c.cumulative_plain ≡ sums 0 c.resources
  pub whole : c.total_plain ≡ total c.resources

add_resource-IsSummed : (rt : ResourceText) (c : Corpus) → IsSummed c → IsSummed (add_resource rt c)
unfolding add_resource
add_resource-IsSummed rt c v = record {
  cumulative =
      ap (λ xs. xs ++ (c.total_plain + length rt.plain) ∷ []) v.cumulative
      ∙ sym
          (sums-append 0 (c.total_plain + length rt.plain) c.resources rt (omega (arith, v.whole)));
  whole = ap (λ n. n + length rt.plain) v.whole ∙ sym (total-append c.resources rt);
}

added :
    (o : Option ResourceText) (c : Corpus)
    → IsSummed c
    → IsSummed (elim o [ none ↦ c | some rt ↦ add_resource rt c ])
added none c v = v
added (some rt) c v = add_resource-IsSummed rt c v

module _ (u : Unicode) (tokens : Bytes → List Token) where
  build_round-IsSummed :
      (limit : ℕ) (r : Resource) (c : Corpus)
      → IsSummed c
      → IsSummed (build_round u tokens limit r c)
  unfolding build_round
  build_round-IsSummed limit r c v = added (extract_resource u r.index (tokens _)) c v

  build_loop-IsSummed :
      (limit : ℕ) (cancelled : Resource → Bool) (rs : List Resource) (c d : Corpus)
      → IsSummed c
      → build_loop u tokens limit cancelled rs c ≡ some d
      → IsSummed d
  unfolding build_loop
  build_loop-IsSummed limit cancelled [] c d v e = subst IsSummed (ground (arith, e)) v
  build_loop-IsSummed limit cancelled (r ∷ rs) c d v e = elim (Bool-cases (cancelled r)) [
    | inl stopped ↦ absurd (ground (arith, e, stopped))
    | inr going ↦
        build_loop-IsSummed limit cancelled rs (build_round u tokens limit r c) d
          (build_round-IsSummed limit r c v) (sym (rw going refl) ∙ e)
  ]

  -- The corpus that Build returns has, for each resource, the length of the texts before it, and
  -- the length of them all.
  pub build-IsSummed :
      (max : ℤ) (cancelled : Resource → Bool) (rs : List Resource) (c : Corpus)
      → build u tokens max cancelled rs ≡ some c
      → IsSummed c
  unfolding build
  build-IsSummed max cancelled rs c =
      build_loop-IsSummed (limit_of max) cancelled rs empty_corpus c
        (record { cumulative = refl; whole = refl })

sums-within :
    (k p : ℕ) (rs : List ResourceText) (rt : ResourceText)
    → get_elem? rs p ≡ some rt
    → get_or (sums k rs) p 0 + length rt.plain ≤ k + total rs
sums-within k p [] rt e = absurd (ground (arith, e))
sums-within k zero (r ∷ rs) rt e =
    let same : r ≡ rt = ground (arith, e) in
    let here : length r.plain ≡ length rt.plain = ap (λ x. length x.plain) same in omega arith
sums-within k (suc p) (r ∷ rs) rt e = omega (arith, sums-within (k + length r.plain) p rs rt e)

-- a float64 in 0..1
abbrev pub IsProgression : Ratio → Type 0
IsProgression r = (r.num ≤ r.den) × (0 < r.den)

ratio_of-IsProgression : (num den : ℕ) → num ≤ den → IsProgression (ratio_of num den)
unfolding ratio_of
ratio_of-IsProgression num den h = elim (Bool-cases (ltb 0 den)) [
  | inl some_text ↦ rw some_text (h, ltb→lt _ _ some_text)
  | inr no_text ↦ rw no_text (omega arith, omega arith)
]

clamp_offset-within : (offset : ℤ) (n : ℕ) → clamp_offset offset n ≤ n
unfolding clamp_offset
clamp_offset-within (pos m) n = ground arith
clamp_offset-within (negsuc m) n = omega arith

-- In a corpus whose cumulative lengths are right, both progressions that ProgressionsAt answers lie
-- in 0..1, for every resource index and offset, negative or past the end.
pub progressions_at-IsProgression :
    (c : Corpus) (resource_index : ℕ) (offset : ℤ)
    → IsSummed c
    → IsProgression (progressions_at c resource_index offset).0
      × IsProgression (progressions_at c resource_index offset).1
unfolding progressions_at progressions_in
progressions_at-IsProgression c resource_index offset v =
    elim (Option-cases (lookup resource_index c.resource_position)) [
      | inl missing ↦
          rw (progressions_at, missing) ((omega arith, omega arith), (omega arith, omega arith))
      | inr (p, placed) ↦ elim (Option-cases (get_elem? c.resources p)) [
        | inl missing ↦
            rw (progressions_at, placed, missing)
              ((omega arith, omega arith), (omega arith, omega arith))
        | inr (rt, found) ↦
            let clamped = clamp_offset-within offset (length rt.plain) in
            let inside = sums-within 0 p c.resources rt found in
            let same = ap (λ xs. get_or xs p 0) v.cumulative in
            rw (progressions_at, placed, found)
              (
                ratio_of-IsProgression _ _ clamped,
                ratio_of-IsProgression _ _ (omega (arith, v.whole)),
              )
      ]
    ]
