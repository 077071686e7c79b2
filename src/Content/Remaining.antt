-- ===== src/Content/Remaining.antt =====
-- pkg/content/iterator/publication.go: the resources that are left, and the next iterator among them.
use go_toolkit.Prelude.{
  ℕ, zero, suc, ◌+◌, ◌≤◌, ◌<◌, ◌≡◌, refl, sym, ap, ◌∙◌, Option, none, some, List, [], ◌++◌, arith,
  lt→ltb, le→ltb,
}
use go_toolkit.Prelude.Panic.{Ends, Ends-map}
use go_toolkit.Content.Iterator.{foward, Iterator, next_content_in, Yields}
use go_toolkit.Content.Publication.{ReadingOrder, next_iterator_in}

module _ {S E : Type 0} (it : Iterator S E) (order : ReadingOrder S) where
  -- The resources from an index on give the elements of a list: each is out of the reading order,
  -- without an iterator, or has an iterator at its beginning that gives a part of the list.
  pub data Remaining : ℕ → List E → Type 0 where
    over : {i : ℕ} → order.size ≤ i → Remaining i []
    skipped :
        {i : ℕ} {es : List E}
        → i < order.size
        → order.load_at_progression i foward ≡ none
        → Remaining (suc i) es
        → Remaining i es
    loaded :
        {i : ℕ} {s : S} {xs ys es : List E}
        → i < order.size
        → order.load_at_progression i foward ≡ some s
        → Yields (next_content_in it foward) s xs
        → Remaining (suc i) ys
        → es ≡ xs ++ ys
        → Remaining i es

  -- an iterator stands at a resource, and it and the resources behind give the list
  abbrev pub Stands : ℕ → S → List E → Type 0
  Stands i s es =
      (xs : List E) × (ys : List E) × Yields (next_content_in it foward) s xs
      × Remaining (suc i) ys
      × (es ≡ xs ++ ys)

  -- what a search for the next iterator from `i` on may find
  abbrev pub Resumes : ℕ → List E → Option (ℕ × S) → Type 0
  Resumes i es none = es ≡ []
  Resumes i es (some (j, s)) = (i ≤ j) × (j < order.size) × Stands j s es

  pub Resumes-before :
      (i : ℕ) (es : List E) (o : Option (ℕ × S)) → Resumes (suc i) es o → Resumes i es o
  Resumes-before i es none h = h
  Resumes-before i es (some (j, s)) (h, inside, stands) = (omega arith, inside, stands)

  pub next_iterator-Resumes :
      (fuel i k : ℕ) (es : List E)
      → k ≡ suc i
      → Remaining k es
      → 0 < fuel
      → order.size < k + fuel
      → Ends (Resumes k es) (next_iterator_in order fuel foward i)
  unfolding next_iterator_in
  next_iterator-Resumes zero i k es e rest p h = absurd (omega arith)
  next_iterator-Resumes (suc fuel) i k es e (over past) p h =
      let outside = le→ltb (suc i) order.size (omega arith) in rw (outside, next_iterator_in) refl
  next_iterator-Resumes (suc fuel) i k es e
        (loaded {s = s} {xs = xs} {ys = ys} inside at yields rest split) p h =
      let here = lt→ltb (suc i) order.size (omega arith) in
      let at' = ap (λ j. order.load_at_progression j foward) (sym e) ∙ at in
      let rest' : Remaining (suc (suc i)) ys = rw (← e) rest in
      rw (here, next_iterator_in, at') (omega arith, omega arith, (xs, ys, yields, rest', split))
  next_iterator-Resumes (suc fuel) i k es e (skipped inside at rest) p h =
      let here = lt→ltb (suc i) order.size (omega arith) in
      let at' = ap (λ j. order.load_at_progression j foward) (sym e) ∙ at in
      rw (here, next_iterator_in, at')
        (Ends-map (Resumes (suc k) es) (Resumes k es) (next_iterator_in order fuel foward (suc i))
          (next_iterator-Resumes fuel (suc i) (suc k) es (ap suc e) rest (omega arith)
            (omega arith))
          (λ o. Resumes-before k es o))
