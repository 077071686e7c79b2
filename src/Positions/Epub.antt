-- ===== src/Positions/Epub.antt =====
-- pkg/parser/epub/positions_service.go: the positions of an EPUB. The reflowable strategy is what
-- counts the positions of a link's resource, `count`. Lengths are below 2^53, where a float64 is
-- exact, and a page length is positive.
pub mod Numbering
pub mod Groups
pub mod Strategies
use go_toolkit.Prelude.{
  ℕ, zero, suc, ◌+◌, ◌-◌, ◌/◌, Bool, true, false, Option, none, some, List, [], ◌∷◌, length, ltb,
  ◌==◌, if◌then◌else◌,
}
use go_toolkit.Positions.Locators.{Ratio, Link, Locator, flatten}

pub record PositionsService : Type 0 where
  pub reading_order : List Link
  pub is_fixed : Bool
  pub positions : List (List Locator)

-- createLocator
unfoldable pub create_locator : Link → Ratio → ℕ → Locator
create_locator link progression position = record {
  href = link.href;
  media_type = elim link.media_type [ some mt ↦ mt | none ↦ "text/html" ];
  title = link.title;
  fragments = [];
  progression = some progression;
  position = some position;
  total_progression = none;
}

-- createFixed
unfoldable pub create_fixed : Link → ℕ → List Locator
create_fixed link start_position =
    create_locator link (record { num = 0; den = 1 }) (start_position + 1) ∷ []

-- createReflowable: the loop from `p` on, with `k` positions left
unfoldable pub reflowable_from : Link → ℕ → ℕ → ℕ → ℕ → List Locator
reflowable_from link start_position position_count p zero = []
reflowable_from link start_position position_count p (suc k) =
    create_locator link (record { num = p; den = position_count }) (start_position + p + 1)
    ∷ reflowable_from link start_position position_count (suc p) k

unfoldable pub create_reflowable : (Link → ℕ) → Link → ℕ → List Locator
create_reflowable count link start_position =
    reflowable_from link start_position (count link) 0 (count link)

-- lastPositionOfPreviousResource behind a resource
unfoldable pub last_position : List Locator → ℕ → ℕ
last_position [] previous = previous
last_position (l ∷ []) previous = elim l.position [ some pos ↦ pos | none ↦ previous ]
last_position (_ ∷ l ∷ ls) previous = last_position (l ∷ ls) previous

-- the first loop of computePositions
unfoldable pub locators_of : (Link → ℕ) → Bool → List Link → ℕ → List (List Locator)
locators_of count is_fixed [] previous = []
locators_of count is_fixed (link ∷ links) previous =
    let lpositions =
      if is_fixed then create_fixed link previous else create_reflowable count link previous in
    lpositions ∷ locators_of count is_fixed links (last_position lpositions previous)

-- totalProgression
unfoldable pub total_page_count : List (List Locator) → ℕ
total_page_count [] = 0
total_page_count (p ∷ ps) = length p + total_page_count ps

unfoldable pub with_total : ℕ → List Locator → List Locator
with_total n [] = []
with_total n (l ∷ ls) =
    (record l {
      total_progression = elim l.position [
        | some pos ↦ some (record { num = pos - 1; den = n })
        | none ↦ l.total_progression
      ];
    })
    ∷ with_total n ls

unfoldable pub with_totals : ℕ → List (List Locator) → List (List Locator)
with_totals n [] = []
with_totals n (p ∷ ps) = with_total n p ∷ with_totals n ps

unfoldable pub compute_positions : (Link → ℕ) → Bool → List Link → List (List Locator)
compute_positions count is_fixed reading_order =
    let positions = locators_of count is_fixed reading_order 0 in
    with_totals (total_page_count positions) positions

-- PositionsByReadingOrder
unfoldable pub positions_by_reading_order :
    (Link → ℕ) → PositionsService → List (List Locator) × PositionsService
positions_by_reading_order count s =
    let computed = compute_positions count s.is_fixed s.reading_order in
    let positions = if length s.positions == 0 then computed else s.positions in
    (positions, record s { positions = positions })

-- Positions
unfoldable pub positions : (Link → ℕ) → PositionsService → List Locator × PositionsService
positions count s = let (poss, s') = positions_by_reading_order count s in (flatten poss, s')
