-- ===== src/Positions/PerResource.antt =====
-- pkg/pub/service_positions.go: PerResourcePositionsService, one position for each resource of the
-- reading order.
use Prim.Native.String.{String}
use go_toolkit.Prelude.{ℕ, suc, ◌+◌, ◌≡◌, refl, ap, none, some, List, [], ◌∷◌, length, arith}
use go_toolkit.Positions.Locators.{
  Link, Locator, flatten, IsConsecutive, IsProgressing, IsNumbering,
}

-- the loop of PositionsByReadingOrder from index `i` on
unfoldable pub locators_from : String → ℕ → ℕ → List Link → List (List Locator)
locators_from fallback page_count i [] = []
locators_from fallback page_count i (v ∷ vs) =
    ((record {
      href = v.href;
      media_type = elim v.media_type [ some typ ↦ typ | none ↦ fallback ];
      title = v.title;
      fragments = [];
      progression = none;
      position = some (i + 1);
      total_progression = some (record { num = i; den = page_count });
    })
      ∷ [])
    ∷ locators_from fallback page_count (suc i) vs

unfoldable pub positions_by_reading_order : String → List Link → List (List Locator)
positions_by_reading_order fallback reading_order =
    locators_from fallback (length reading_order) 0 reading_order

-- Positions takes the one element of each group
unfoldable pub positions : String → List Link → List Locator
positions fallback reading_order = flatten (positions_by_reading_order fallback reading_order)

module _ (fallback : String) (n : ℕ) where
  locators_from-IsConsecutive :
      (i : ℕ) (vs : List Link) → IsConsecutive i (flatten (locators_from fallback n i vs))
  unfolding locators_from flatten
  locators_from-IsConsecutive i [] = tt
  locators_from-IsConsecutive i (v ∷ vs) =
      (ap some (omega arith), locators_from-IsConsecutive (suc i) vs)

  locators_from-IsProgressing :
      (i : ℕ) (vs : List Link) → IsProgressing i n (flatten (locators_from fallback n i vs))
  unfolding locators_from flatten
  locators_from-IsProgressing i [] = tt
  locators_from-IsProgressing i (v ∷ vs) = (refl, locators_from-IsProgressing (suc i) vs)

  locators_from-length :
      (i : ℕ) (vs : List Link) → length (flatten (locators_from fallback n i vs)) ≡ length vs
  unfolding locators_from flatten
  locators_from-length i [] = refl
  locators_from-length i (v ∷ vs) = ap suc (locators_from-length (suc i) vs)

-- There is one position for each resource, they are numbered from 1 on, and their total progression
-- grows by equal steps.
per_resource-IsNumbering :
    (fallback : String) (reading_order : List Link)
    → (length (positions fallback reading_order) ≡ length reading_order)
      × IsNumbering (positions fallback reading_order)
unfolding positions positions_by_reading_order
per_resource-IsNumbering fallback vs =
    let n = length vs in
    let e = locators_from-length fallback n 0 vs in
    (
      e,
      (
        locators_from-IsConsecutive fallback n 0 vs,
        rw e (locators_from-IsProgressing fallback n 0 vs),
      ),
    )
