-- ===== src/Content/Iterator.antt =====
-- pkg/content/iterator/iterator.go: the interface of an iterator, over a state. An error is `none`.
use go_toolkit.Prelude.{Bool, true, false, Option, none, some, List, [], ◌∷◌, ◌≡◌}
use go_toolkit.Prelude.Panic.{Run, done, ◌>>=◌}

-- The source's spelling.
pub data Direction : Type 0 where
  foward : Direction
  backward : Direction

pub record Iterator (S E : Type 0) : Type 0 where
  pub has_next : S → Option Bool × S
  pub next : S → Run (E × S)
  pub has_previous : S → Option Bool × S
  pub previous : S → Run (E × S)

-- the answer of a HasNext, and the element behind it; `some none` is nil with no error
unfoldable pub or_nil :
    {S E : Type 0} → (S → Run (E × S)) → Option Bool × S → Run (Option (Option E) × S)
or_nil take (none, s) = done (none, s)
or_nil take (some false, s) = done (some none, s)
or_nil take (some true, s) = take s >>= λ r. done (some (some r.0), r.1)

unfoldable pub it_next_or_nil : {S E : Type 0} → Iterator S E → S → Run (Option (Option E) × S)
it_next_or_nil it s = or_nil it.next (it.has_next s)

unfoldable pub it_previous_or_nil : {S E : Type 0} → Iterator S E → S → Run (Option (Option E) × S)
it_previous_or_nil it s = or_nil it.previous (it.has_previous s)

-- IndexedIterator.NextContentIn
unfoldable pub next_content_in :
    {S E : Type 0} → Iterator S E → Direction → S → Run (Option (Option E) × S)
next_content_in it foward s = it_next_or_nil it s
next_content_in it backward s = it_previous_or_nil it s

-- From the state `s` on, the calls of `step` give the elements of the list, one each, and then the end,
-- with no error and no panic.
pub data Yields {S E : Type 0} (step : S → Run (Option (Option E) × S)) : S → List E → Type 0 where
  ended : {s s' : S} → step s ≡ done (some none, s') → Yields step s []
  yielded :
      {s s' : S} {e : E} {es : List E}
      → step s ≡ done (some (some e), s')
      → Yields step s' es
      → Yields step s (e ∷ es)
