-- ===== src/Positions/Epub/Groups.antt =====
-- pkg/parser/epub/positions_service.go: the positions of each resource, and the cache.
use go_toolkit.Prelude.{
  ℕ, zero, suc, ◌+◌, ◌≡◌, refl, ◌⊎◌, inl, inr, Bool, true, false, some, List, [], ◌∷◌, length, ◌==◌,
  if◌then◌else◌, arith, Bool-cases,
}
use go_toolkit.Positions.Locators.{Link, Locator}
use go_toolkit.Positions.Epub.{
  PositionsService, create_locator, create_fixed, reflowable_from, create_reflowable, locators_of,
  with_total, with_totals, compute_positions, positions_by_reading_order,
}

-- The positions p + 1 to n of a resource: they refer to it, and their progression is p of n and so
-- on.
abbrev pub IsGroup : Link → ℕ → ℕ → List Locator → Type 0
IsGroup link n p [] = p ≡ n
IsGroup link n p (l ∷ ls) =
    (l.href ≡ link.href)
    × (l.progression ≡ some (record { num = p; den = n }))
    × IsGroup link n (suc p) ls

-- One group for each link, with as many positions as the layout and the strategy say.
abbrev pub AreGroups : (Link → ℕ) → Bool → List Link → List (List Locator) → Type 0
AreGroups count is_fixed [] [] = Unit
AreGroups count is_fixed [] (g ∷ gs) = ⊥
AreGroups count is_fixed (link ∷ links) [] = ⊥
AreGroups count is_fixed (link ∷ links) (g ∷ gs) =
    IsGroup link (if is_fixed then 1 else count link) 0 g × AreGroups count is_fixed links gs

reflowable_from-IsGroup :
    (link : Link) (start n p k : ℕ)
    → p + k ≡ n
    → IsGroup link n p (reflowable_from link start n p k)
unfolding reflowable_from create_locator
reflowable_from-IsGroup link start n p zero e = omega arith
reflowable_from-IsGroup link start n p (suc k) e =
    (refl, refl, reflowable_from-IsGroup link start n (suc p) k (omega arith))

created-IsGroup :
    (count : Link → ℕ) (is_fixed : Bool) (link : Link) (previous : ℕ)
    → IsGroup link
        (if is_fixed then 1 else count link)
        0
        (if is_fixed then create_fixed link previous else create_reflowable count link previous)
unfolding create_fixed create_reflowable create_locator
created-IsGroup count true link previous = (refl, refl, refl)
created-IsGroup count false link previous =
    reflowable_from-IsGroup link previous (count link) 0 (count link) (omega arith)

locators_of-AreGroups :
    (count : Link → ℕ) (is_fixed : Bool) (links : List Link) (previous : ℕ)
    → AreGroups count is_fixed links (locators_of count is_fixed links previous)
unfolding locators_of
locators_of-AreGroups count is_fixed [] previous = tt
locators_of-AreGroups count is_fixed (link ∷ links) previous =
    (created-IsGroup count is_fixed link previous, locators_of-AreGroups count is_fixed links _)

with_total-IsGroup :
    (link : Link) (n p m : ℕ) (ls : List Locator)
    → IsGroup link n p ls
    → IsGroup link n p (with_total m ls)
unfolding with_total
with_total-IsGroup link n p m [] h = h
with_total-IsGroup link n p m (l ∷ ls) (h, e, hs) =
    (h, e, with_total-IsGroup link n (suc p) m ls hs)

with_totals-AreGroups :
    (count : Link → ℕ) (is_fixed : Bool) (m : ℕ) (links : List Link) (gs : List (List Locator))
    → AreGroups count is_fixed links gs
    → AreGroups count is_fixed links (with_totals m gs)
unfolding with_totals
with_totals-AreGroups count is_fixed m [] [] h = tt
with_totals-AreGroups count is_fixed m [] (g ∷ gs) h = absurd h
with_totals-AreGroups count is_fixed m (link ∷ links) [] h = absurd h
with_totals-AreGroups count is_fixed m (link ∷ links) (g ∷ gs) (h, hs) =
    (with_total-IsGroup link _ 0 m g h, with_totals-AreGroups count is_fixed m links gs hs)

-- There is one group of positions for each link of the reading order, in order; it refers to the
-- link and has one position in a fixed layout, else as many as the strategy counts; the
-- progression within a group of n is 0 of n, 1 of n and so on.
pub compute_positions-AreGroups :
    (count : Link → ℕ) (is_fixed : Bool) (links : List Link)
    → AreGroups count is_fixed links (compute_positions count is_fixed links)
unfolding compute_positions
compute_positions-AreGroups count is_fixed links =
    with_totals-AreGroups count is_fixed _ links _ (locators_of-AreGroups count is_fixed links 0)

-- The service has not computed its positions yet, or it holds the computed ones.
abbrev pub IsCached : (Link → ℕ) → PositionsService → Type 0
IsCached count s =
    (s.positions ≡ []) ⊎ (s.positions ≡ compute_positions count s.is_fixed s.reading_order)

-- If the service has not computed its positions or holds the computed ones, PositionsByReadingOrder
-- answers the computed positions and leaves the service in such a state.
positions_by_reading_order-IsCached :
    (count : Link → ℕ) (s : PositionsService)
    → IsCached count s
    → ((positions_by_reading_order count s).0 ≡ compute_positions count s.is_fixed s.reading_order)
      × IsCached count (positions_by_reading_order count s).1
unfolding positions_by_reading_order
positions_by_reading_order-IsCached count s (inl e) = rw e (refl, inr refl)
positions_by_reading_order-IsCached count s (inr e) = elim (Bool-cases (length s.positions == 0)) [
  | inl empty ↦ rw empty (refl, inr refl)
  | inr held ↦ rw held (e, inr e)
]
