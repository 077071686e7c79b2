-- ===== src/Search/Library.antt =====
-- pkg/search/corpus.go: the corpus of a publication, and progressions in it. A float64 that is a
-- quotient of two integers is kept as these two; what splits markup into tokens is a parameter.
pub mod Sums
use go_toolkit.Prelude.{
  ℕ, zero, suc, ◌+◌, Bool, true, false, Option, none, some, List, [], ◌∷◌, ◌++◌, ltb, if◌then◌else◌,
  Bytes, length, take, get_or, get_elem?,
}
use go_toolkit.Prelude.Int.{ℤ, pos, negsuc}
use go_toolkit.Prelude.Assoc.{lookup, insert}
use go_toolkit.Positions.Locators.{Ratio}
use go_toolkit.Search.Text.{Unicode}
use go_toolkit.Search.Corpus.{Token, ResourceText, extract_resource}

pub record Resource : Type 0 where
  pub index : ℕ
  pub bytes : Bytes

pub record Corpus : Type 0 where
  pub resources : List ResourceText
  pub cumulative_plain : List ℕ
  pub total_plain : ℕ
  pub resource_position : List (ℕ × ℕ)

abbrev pub default_max_resource_bytes : ℕ
default_max_resource_bytes = 2097152

unfoldable pub limit_of : ℤ → ℕ
limit_of (pos zero) = default_max_resource_bytes
limit_of (pos (suc n)) = suc n
limit_of (negsuc n) = default_max_resource_bytes

abbrev pub empty_corpus : Corpus
empty_corpus = record {
  resources = [];
  cumulative_plain = 0 ∷ [];
  total_plain = 0;
  resource_position = [];
}

-- the end of a round of Build
unfoldable pub add_resource : ResourceText → Corpus → Corpus
add_resource rt c =
    let total = c.total_plain + length rt.plain in
    record {
      resources = c.resources ++ rt ∷ [];
      cumulative_plain = c.cumulative_plain ++ total ∷ [];
      total_plain = total;
      resource_position = insert rt.index (length c.resources) c.resource_position;
    }

module _ (u : Unicode) (tokens : Bytes → List Token) where
  unfoldable pub build_round : ℕ → Resource → Corpus → Corpus
  build_round limit r c =
      let raw = if ltb limit (length r.bytes) then take limit r.bytes else r.bytes in
      elim (extract_resource u r.index (tokens raw)) [ none ↦ c | some rt ↦ add_resource rt c ]

  -- `cancelled` tells whether ctx.Err() is set before a resource; `none` is that error
  unfoldable pub build_loop : ℕ → (Resource → Bool) → List Resource → Corpus → Option Corpus
  build_loop limit cancelled [] c = some c
  build_loop limit cancelled (r ∷ rs) c =
      if cancelled r then none else build_loop limit cancelled rs (build_round limit r c)

  unfoldable pub build : ℤ → (Resource → Bool) → List Resource → Option Corpus
  build max_resource_bytes cancelled resources =
      build_loop (limit_of max_resource_bytes) cancelled resources empty_corpus

-- the offset that ProgressionsAt clamps
unfoldable pub clamp_offset : ℤ → ℕ → ℕ
clamp_offset (negsuc n) resource_length = 0
clamp_offset (pos n) resource_length = if ltb resource_length n then resource_length else n

abbrev pub no_progression : Ratio
no_progression = record { num = 0; den = 1 }

unfoldable pub ratio_of : ℕ → ℕ → Ratio
ratio_of num den = if ltb 0 den then record { num = num; den = den } else no_progression

-- the two progressions at an offset of the resource at a position
unfoldable pub progressions_in : Corpus → ℕ → ResourceText → ℤ → Ratio × Ratio
progressions_in c position rt offset =
    let resource_length = length rt.plain in
    let at = clamp_offset offset resource_length in
    (
      ratio_of at resource_length,
      ratio_of (get_or c.cumulative_plain position 0 + at) c.total_plain,
    )

-- ProgressionsAt; a position out of range has no resource
unfoldable pub progressions_at : Corpus → ℕ → ℤ → Ratio × Ratio
progressions_at c resource_index offset = elim (lookup resource_index c.resource_position) [
  | none ↦ (no_progression, no_progression)
  | some position ↦ elim (get_elem? c.resources position) [
    | none ↦ (no_progression, no_progression)
    | some rt ↦ progressions_in c position rt offset
  ]
]
