-- ===== src/Content/Publication.antt =====
-- pkg/content/iterator/publication.go: the iterator over the resources of the reading order. Loading
-- the iterator of a resource, which calls the fetcher and the factories, is a parameter: at the start
-- locator, or at the beginning or the end of the resource.
use go_toolkit.Prelude.{ℕ, zero, suc, Bool, true, false, Option, none, some, ltb, if◌then◌else◌}
use go_toolkit.Prelude.Panic.{Run, done, panic, ◌>>=◌}
use go_toolkit.Content.Iterator.{Direction, foward, backward, Iterator, next_content_in}

-- `size` is the length of the reading order, and `start` the index that the start locator has in it
-- (0 if its href is not found), if there is one
pub record ReadingOrder (S : Type 0) : Type 0 where
  pub size : ℕ
  pub start : Option ℕ
  pub load_at_locator : ℕ → Option S
  pub load_at_progression : ℕ → Direction → Option S

pub record PublicationContentIterator (S E : Type 0) : Type 0 where
  pub current_iterator : Option (ℕ × S)
  pub current_element : Option (E × Direction)

abbrev pub new_publication : {S E : Type 0} → PublicationContentIterator S E
new_publication = record { current_iterator = none; current_element = none }

-- the index behind one in a direction; below 0 there is none
abbrev pub neighbour : Direction → ℕ → Option ℕ
neighbour foward i = some (suc i)
neighbour backward zero = none
neighbour backward (suc i) = some i

abbrev pub indexed : {S : Type 0} → ℕ → Option S → Option (ℕ × S)
indexed i none = none
indexed i (some s) = some (i, s)

module _ {S : Type 0} (order : ReadingOrder S) where
  -- ReadingOrder[index] of an index out of range panics
  unfoldable pub load_at : (ℕ → Option S) → ℕ → Run (Option (ℕ × S))
  load_at load i = if ltb i order.size then done (indexed i (load i)) else panic

  -- the recursion, with fuel for its rounds
  unfoldable pub next_iterator_in : ℕ → Direction → ℕ → Run (Option (ℕ × S))
  next_iterator_in zero d from = panic
  next_iterator_in (suc fuel) d from = elim (neighbour d from) [
    | none ↦ done none
    | some index ↦ elim (ltb index order.size) [
      | false ↦ done none
      | true ↦ elim (order.load_at_progression index d) [
        | some s ↦ done (some (index, s))
        | none ↦ next_iterator_in fuel d index
      ]
    ]
  ]

  -- the progression is 0, which is that of the beginning
  unfoldable pub initial_load : Run (ℕ × Option (ℕ × S))
  initial_load = elim order.start [
    | some i ↦ load_at order.load_at_locator i >>= λ ii. done (i, ii)
    | none ↦ load_at (λ i. order.load_at_progression i foward) 0 >>= λ ii. done (0, ii)
  ]

  unfoldable pub initial_iterator : Run (Option (ℕ × S))
  initial_iterator = do
    loaded ← initial_load
    elim loaded.1 [
      | some ii ↦ done (some ii)
      | none ↦ next_iterator_in (suc order.size) foward loaded.0
    ]

module _ {S E : Type 0} (it : Iterator S E) (order : ReadingOrder S) where
  unfoldable pub current_iterator_of : PublicationContentIterator S E → Run (Option (ℕ × S))
  current_iterator_of st = elim st.current_iterator [
    | some ii ↦ done (some ii)
    | none ↦ initial_iterator order
  ]

  abbrev pub Found : Type 0
  Found = Option (Option (E × Direction)) × PublicationContentIterator S E

  -- nextIn behind the current iterator, with fuel for its rounds
  unfoldable pub next_from : ℕ → Direction → ℕ → S → PublicationContentIterator S E → Run Found
  next_from zero d i s st = panic
  next_from (suc fuel) d i s st = do
    content ← next_content_in it d s
    elim content.0 [
      | none ↦ done (none, record st { current_iterator = some (i, content.1) })
      | some found ↦ elim found [
        | some e ↦ done (some (some (e, d)), record st { current_iterator = some (i, content.1) })
        | none ↦ do
          ni ← next_iterator_in order (suc order.size) d i
          elim ni [
            | none ↦ done (some none, record st { current_iterator = some (i, content.1) })
            | some ii ↦ next_from fuel d ii.0 ii.1 (record st { current_iterator = some ii })
          ]
      ]
    ]

  unfoldable pub next_in : Direction → PublicationContentIterator S E → Run Found
  next_in d st = do
    current ← current_iterator_of st
    elim current [
      | none ↦ done (some none, record st { current_iterator = none })
      | some ii ↦
          next_from (suc (suc order.size)) d ii.0 ii.1 (record st { current_iterator = some ii })
    ]

  -- HasNext and HasPrevious: the element is kept unless there was an error
  unfoldable pub keep_element : Found → Option Bool × PublicationContentIterator S E
  keep_element (none, st) = (none, st)
  keep_element (some none, st) = (some false, record st { current_element = none })
  keep_element (some (some e), st) = (some true, record st { current_element = some e })

  unfoldable pub has :
      Direction
      → PublicationContentIterator S E
      → Run (Option Bool × PublicationContentIterator S E)
  has d st = next_in d st >>= λ r. done (keep_element r)

  -- Next and Previous; the element stays
  unfoldable pub current : Direction → PublicationContentIterator S E → Run E
  current foward st = elim st.current_element [
    | none ↦ panic
    | some e ↦ elim e.1 [ foward ↦ done e.0 | backward ↦ panic ]
  ]
  current backward st = elim st.current_element [
    | none ↦ panic
    | some e ↦ elim e.1 [ foward ↦ panic | backward ↦ done e.0 ]
  ]

  -- a client's call of HasNext and, if there is one, of Next; and so for the other direction
  unfoldable pub advance :
      Direction
      → PublicationContentIterator S E
      → Run (Option (Option E) × PublicationContentIterator S E)
  advance d st = do
    answer ← has d st
    elim answer.0 [
      | none ↦ done (none, answer.1)
      | some more ↦ elim more [
        | false ↦ done (some none, answer.1)
        | true ↦ current d answer.1 >>= λ e. done (some (some e), answer.1)
      ]
    ]
