-- ===== src/Positions/Epub/Strategies.antt =====
-- pkg/parser/epub/positions_service.go: the strategies that count the positions of a resource.
-- The length of a resource is what its properties, or its reading, give.
use go_toolkit.Prelude.{
  ℕ, ◌+◌, ◌-◌, ◌*◌, ◌/◌, ◌≤◌, ◌<◌, ◌≡◌, ◌⊎◌, Option, none, some, ltb, if◌then◌else◌, min, arith,
}

-- math.Ceil of the quotient
unfoldable pub ceil_div : ℕ → ℕ → ℕ
ceil_div length page_length = (length + (page_length - 1)) / page_length

-- a length that may be missing
abbrev pub length_or : Option ℕ → ℕ → ℕ
length_or none n = n
length_or (some l) n = l

-- ArchiveEntryLength.PositionCount; a missing entryLength is `none`
unfoldable pub archive_entry_count : ℕ → Option ℕ → ℕ
archive_entry_count page_length entry_length =
    let pages = ceil_div (length_or entry_length 0) page_length in if ltb pages 1 then 1 else pages

-- OriginalLength.PositionCount: the original length of an encrypted resource, else its length
unfoldable pub original_count : ℕ → Option ℕ → ℕ → ℕ
original_count page_length original_length resource_length =
    min (ceil_div (length_or original_length resource_length) page_length) 1

-- RecommendedReflowableStrategy
abbrev pub recommended : Option ℕ → ℕ
recommended = archive_entry_count 1024

-- The recommended strategy counts at least one position; the positions cover the entry, at 1024
-- bytes each, and without the last one they would not, unless it is the only one.
recommended-covers :
    (el : ℕ)
    → (1 ≤ recommended (some el))
      × (el ≤ 1024 * recommended (some el))
      × ((recommended (some el) ≡ 1) ⊎ (1024 * (recommended (some el) - 1) < el))
unfolding archive_entry_count ceil_div
recommended-covers el = ground arith

-- The strategy by original length never counts more than one position, and none for an empty
-- resource, whatever the page length.
original_count-at_most_one :
    (page_length : ℕ) (original_length : Option ℕ) (resource_length : ℕ)
    → original_count page_length original_length resource_length ≤ 1
unfolding original_count
original_count-at_most_one page_length original_length resource_length = omega arith
