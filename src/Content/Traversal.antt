-- ===== src/Content/Traversal.antt =====
-- pkg/content/iterator/publication.go: what a traversal of a publication gives.
use go_toolkit.Prelude.{
  ℕ, zero, suc, ◌+◌, ◌<◌, ◌≡◌, refl, ap, ◌∙◌, inl, inr, Bool, true, false, Option, none, some, List,
  [], ◌∷◌, arith, Option-cases, lt→ltb,
}
use go_toolkit.Prelude.Panic.{Run, done, panic, ◌>>=◌, Ends, Ends-map, Ends-bind}
use go_toolkit.Content.Iterator.{foward, Iterator, Yields, ended, yielded}
use go_toolkit.Content.Publication.{
  ReadingOrder, PublicationContentIterator, new_publication, indexed, load_at, next_iterator_in,
  initial_load, initial_iterator, current_iterator_of, Found, next_from, next_in, keep_element, has,
  current, advance,
}
use go_toolkit.Content.Remaining.{
  Remaining, over, skipped, loaded, Stands, Resumes, Resumes-before, next_iterator-Resumes,
}

from_end : {A : Type 0} (r : Run A) (a : A) → Ends (λ b. b ≡ a) r → r ≡ done a
from_end (done b) a h = ap done h
from_end panic a h = absurd h

module _ {S E : Type 0} (it : Iterator S E) (order : ReadingOrder S) where
  -- the publication's iterator stands at a resource
  abbrev At : PublicationContentIterator S E → List E → Type 0
  At st es =
      (i : ℕ) × (s : S) × (st.current_iterator ≡ some (i, s))
      × (i < order.size)
      × Stands it order i s es

  -- what nextIn finds, for the elements that are left
  abbrev Gives : List E → Found it order → Type 0
  Gives [] r = r.0 ≡ some none
  Gives (e ∷ es) r = (r.0 ≡ some (some (e, foward))) × At r.1 es

  next_from-Gives :
      (fuel i : ℕ) (s : S) (st : PublicationContentIterator S E) (es : List E)
      → i < order.size
      → order.size < i + fuel
      → Stands it order i s es
      → Ends (Gives es) (next_from it order fuel foward i s st)
  unfolding next_from
  next_from-Gives zero i s st es inside p stands = absurd (omega arith)
  next_from-Gives (suc fuel) i s st es inside p
        (xs, ys, yielded {s' = s'} {e = x} {es = xs'} step more, rest, split) =
      rw (split, next_from, step) (refl, (i, s', refl, inside, (xs', ys, more, rest, refl)))
  next_from-Gives (suc fuel) i s st es inside p (xs, ys, ended {s' = s'} step, rest, split) =
      rw (split, next_from, step)
        (Ends-bind (Resumes it order (suc i) ys) (Gives ys)
          (next_iterator_in order (suc order.size) foward i) _
          (next_iterator-Resumes it order (suc order.size) i (suc i) ys refl rest (omega arith)
            (omega arith))
          (λ o resumes. elim (Option-cases o) [
            | inl none_left ↦
                let nothing : ys ≡ [] = rw (none_left) at resumes in rw (none_left, nothing) refl
            | inr ((j, t), found) ↦
                let resumed : Resumes it order (suc i) ys (some (j, t)) = rw found at resumes in
                rw found (
                  next_from-Gives fuel j t (record st { current_iterator = some (j, t) }) ys
                    resumed.1 (omega (arith, resumed.0)) resumed.2)
          ]))

  -- an iterator that was found, or none, and what nextIn does with it
  found-Gives :
      (i : ℕ) (o : Option (ℕ × S)) (st : PublicationContentIterator S E) (es : List E)
      → Resumes it order i es o
      → Ends (Gives es) (elim o [
        | none ↦ done (some none, record st { current_iterator = none })
        | some ii ↦
            next_from it order
              (suc (suc order.size))
              foward
              ii.0
              ii.1
              (record st { current_iterator = some ii })
      ])
  found-Gives i none st es resumes = rw resumes refl
  found-Gives i (some (j, s)) st es (h, inside, stands) =
      next_from-Gives (suc (suc order.size)) j s (record st { current_iterator = some (j, s) }) es
        inside (omega arith) stands

  next_in-Gives :
      (st : PublicationContentIterator S E) (es : List E)
      → At st es
      → Ends (Gives es) (next_in it order foward st)
  unfolding next_in current_iterator_of
  next_in-Gives st es (i, s, e, inside, stands) = rw e (
      next_from-Gives (suc (suc order.size)) i s (record st { current_iterator = some (i, s) }) es
        inside (omega arith) stands)

  initial_load-first :
      0 < order.size
      → order.start ≡ none
      → initial_load order ≡ done (0, indexed 0 (order.load_at_progression 0 foward))
  unfolding initial_load load_at
  initial_load-first some_link beginning =
      let inside = lt→ltb 0 order.size some_link in simp (initial_load, beginning, inside) refl

  initial-Resumes :
      (es : List E)
      → 0 < order.size
      → order.start ≡ none
      → Remaining it order 0 es
      → Ends (Resumes it order 0 es) (initial_iterator order)
  unfolding initial_iterator
  initial-Resumes es some_link beginning (over past) = absurd (omega arith)
  initial-Resumes es some_link beginning (skipped inside at rest) =
      rw (initial_load-first some_link beginning, at)
        (Ends-map (Resumes it order 1 es) (Resumes it order 0 es)
          (next_iterator_in order (suc order.size) foward 0)
          (next_iterator-Resumes it order (suc order.size) 0 1 es refl rest (omega arith)
            (omega arith))
          (λ o. Resumes-before it order 0 es o))
  initial-Resumes es some_link beginning (loaded {xs = xs} {ys = ys} inside at yields rest split) =
      rw (initial_load-first some_link beginning, at)
        (omega arith, inside, (xs, ys, yields, rest, split))

  first_in-Gives :
      (es : List E)
      → 0 < order.size
      → order.start ≡ none
      → Remaining it order 0 es
      → Ends (Gives es) (next_in it order foward new_publication)
  unfolding next_in current_iterator_of
  first_in-Gives es some_link beginning rest =
      Ends-bind (Resumes it order 0 es) (Gives es) (initial_iterator order) _
        (initial-Resumes es some_link beginning rest)
        (λ o resumes. found-Gives 0 o new_publication es resumes)

  -- HasNext has announced the element, and the others are left.
  abbrev Announces : E → List E → Option Bool × PublicationContentIterator S E → Type 0
  Announces x es r = (r.0 ≡ some true) × (r.1.current_element ≡ some (x, foward)) × At r.1 es

  has-Announces :
      (st : PublicationContentIterator S E) (x : E) (es : List E)
      → Ends (Gives (x ∷ es)) (next_in it order foward st)
      → Ends (Announces x es) (has it order foward st)
  unfolding has keep_element
  has-Announces st x es gives =
      Ends-bind (Gives (x ∷ es)) _ (next_in it order foward st) _ gives (λ r g. kept r g.0 g.1)
    where
      kept :
          (r : Found it order)
          → r.0 ≡ some (some (x, foward))
          → At r.1 es
          → Announces x es (keep_element it order r)
      kept (o, st') g at = rw g (refl, refl, at)

  -- what a call of HasNext and one of Next give
  abbrev Advances : List E → Option (Option E) × PublicationContentIterator S E → Type 0
  Advances [] r = r.0 ≡ some none
  Advances (e ∷ es) r = (r.0 ≡ some (some e)) × At r.1 es

  -- HasNext and Next, over what nextIn gives
  advance-Advances :
      (st : PublicationContentIterator S E) (es : List E)
      → Ends (Gives es) (next_in it order foward st)
      → Ends (Advances es) (advance it order foward st)
  unfolding advance has keep_element current
  advance-Advances st [] gives =
      Ends-bind (λ r. r.0 ≡ some false) (Advances []) (has it order foward st) _
        (Ends-bind (Gives []) _ (next_in it order foward st) _ gives (λ r g. ended_kept r g))
        (λ r e. rw e refl)
    where
      ended_kept : (r : Found it order) → r.0 ≡ some none → (keep_element it order r).0 ≡ some false
      ended_kept (o, st') g = rw g refl
  advance-Advances st (x ∷ es) gives =
      Ends-bind (Announces x es) (Advances (x ∷ es)) (has it order foward st) _
        (has-Announces st x es gives) (λ r k. rw (k.0, k.1) (refl, k.2))

  at-Yields :
      (st : PublicationContentIterator S E) (es : List E)
      → Ends (Advances es) (advance it order foward st)
      → Yields (advance it order foward) st es
  at-Yields st [] h = last (advance it order foward st) refl h
    where
      last :
          (r : Run (Option (Option E) × PublicationContentIterator S E))
          → advance it order foward st ≡ r
          → Ends (Advances []) r
          → Yields (advance it order foward) st []
      last panic e h = absurd h
      last (done (o, st')) e h = ended (e ∙ ap (λ k. done (k, st')) h)
  at-Yields st (x ∷ es) h =
      first (advance it order foward st) refl h
        (λ st' at. at-Yields st' es (advance-Advances st' es (next_in-Gives st' es at)))
    where
      first :
          (r : Run (Option (Option E) × PublicationContentIterator S E))
          → advance it order foward st ≡ r
          → Ends (Advances (x ∷ es)) r
          → ((st' : PublicationContentIterator S E)
              → At st' es
              → Yields (advance it order foward) st' es)
          → Yields (advance it order foward) st (x ∷ es)
      first panic e h rest = absurd h
      first (done (o, st')) e (h, at) rest = yielded (e ∙ ap (λ k. done (k, st')) h) (rest st' at)

  -- The forward traversal of a publication without a start locator and with at least one link in its
  -- reading order, by HasNext and Next, gives the elements of its resources in the reading order, each
  -- once, and then the end, where the iterator of each resource gives its elements and then the end:
  -- resources that have no iterator are skipped, and those without elements are passed over.
  pub publication-Yields :
      (es : List E)
      → 0 < order.size
      → order.start ≡ none
      → Remaining it order 0 es
      → Yields (advance it order foward) new_publication es
  publication-Yields es some_link beginning rest =
      at-Yields new_publication es
        (advance-Advances new_publication es (first_in-Gives es some_link beginning rest))

  -- Where the resources of a publication without a start locator give at least two elements, two calls
  -- of HasNext with no Next between them announce the second one: Next returns it, and the first one
  -- is lost.
  pub has_next_twice-skips :
      (x y : E) (es : List E)
      → 0 < order.size
      → order.start ≡ none
      → Remaining it order 0 (x ∷ y ∷ es)
      → (do
        first ← has it order foward new_publication
        second ← has it order foward first.1
        current it order foward second.1)
        ≡ done y
  unfolding current
  has_next_twice-skips x y es some_link beginning rest = from_end _ y (
      Ends-bind (Announces x (y ∷ es)) _ (has it order foward new_publication) _
        (has-Announces new_publication x (y ∷ es)
          (first_in-Gives (x ∷ y ∷ es) some_link beginning rest))
        (λ first announced.
          Ends-bind (Announces y es) _ (has it order foward first.1) _
            (has-Announces first.1 y es (next_in-Gives first.1 (y ∷ es) announced.2))
            (λ second k. rw k.1 refl)))
