-- ===== src/Content/HtmlTraversal.antt =====
-- pkg/content/iterator/html.go: what a traversal of an HTML resource gives.
use go_toolkit.Prelude.{
  ℕ, zero, suc, ◌≡◌, refl, false, Option, none, some, List, [], ◌∷◌, get_elem?, get_elem-below,
  length, ◌≤◌, ◌<◌, ◌==◌, reverse, reverse-take-suc, take, drop, arith,
}
use go_toolkit.Prelude.Panic.{done}
use go_toolkit.Content.Iterator.{
  foward, backward, or_nil, it_next_or_nil, it_previous_or_nil, next_content_in, Yields, ended,
  yielded,
}
use go_toolkit.Content.Html.{
  ParsedElements, result, HtmlContentIterator, new_html, or_parse, elements, pending, move,
  index_after, move_next, move_to, move_previous, has_next, has_previous, next, previous, index_or,
  html,
}

allocated :
    {V : Type 0} (memory : List V) (a : ℕ) (v : V) → get_elem? memory a ≡ some v → a < length memory
allocated [] a v e = absurd (ground (arith, e))
allocated (x ∷ xs) zero v e = omega arith
allocated (x ∷ xs) (suc a) v e = omega (arith, allocated xs a v e)

module _ {E : Type 0} where
  -- an iterator with no element announced
  abbrev at :
      Option (ParsedElements E) → Option (ParsedElements E) → Option ℕ → HtmlContentIterator E
  at parse parsed index = record {
    parse = parse;
    parsed_elements = parsed;
    current_element = none;
    current_index = index;
  }

  step_ends :
      (parse parsed : Option (ParsedElements E)) (index : Option ℕ) (p : ParsedElements E)
      → or_parse parsed parse ≡ some p
      → get_elem? p.elements (index_after index p.start_index) ≡ none
      → next_content_in html foward (at parse parsed index)
        ≡ done (some none, at parse (some p) index)
  unfolding next_content_in it_next_or_nil or_nil has_next elements pending move_next move
  step_ends parse parsed index p e none_left = rw (e, none_left) refl

  step_yields :
      (parse parsed : Option (ParsedElements E)) (index : Option ℕ) (p : ParsedElements E) (x : E)
      → or_parse parsed parse ≡ some p
      → get_elem? p.elements (index_after index p.start_index) ≡ some x
      → next_content_in html foward (at parse parsed index)
        ≡ done (some (some x), at parse (some p) (some (index_after index p.start_index)))
  unfolding next_content_in it_next_or_nil or_nil has_next elements pending move_next move next
  step_yields parse parsed index p x e found = rw (e, found) refl

  get_elem-drop : (xs : List E) (k : ℕ) → drop k xs ≡ [] → get_elem? xs k ≡ none
  get_elem-drop [] k h = refl
  get_elem-drop (x ∷ xs) zero h = absurd (ground (arith, h))
  get_elem-drop (x ∷ xs) (suc k) h = get_elem-drop xs k h

  drop_cons :
      (xs : List E) (k : ℕ) (y : E) (ys : List E)
      → drop k xs ≡ y ∷ ys
      → (get_elem? xs k ≡ some y) × (drop (suc k) xs ≡ ys)
  drop_cons [] zero y ys h = absurd (ground (arith, h))
  drop_cons [] (suc k) y ys h = absurd (ground (arith, h))
  drop_cons (x ∷ xs) zero y ys h = (ground (arith, h), ground (arith, h))
  drop_cons (x ∷ xs) (suc k) y ys h = drop_cons xs k y ys h

  at-Yields :
      (parse parsed : Option (ParsedElements E)) (index : Option ℕ) (p : ParsedElements E)
      (es : List E)
      → or_parse parsed parse ≡ some p
      → drop (index_after index p.start_index) p.elements ≡ es
      → Yields (next_content_in html foward) (at parse parsed index) es
  at-Yields parse parsed index p [] e h =
      ended (step_ends parse parsed index p e (get_elem-drop p.elements _ h))
  at-Yields parse parsed index p (x ∷ es) e h =
      let k = index_after index p.start_index in
      let split = drop_cons p.elements k x es h in
      yielded (step_yields parse parsed index p x e split.0)
        (at-Yields parse (some p) (some k) p es refl split.1)

  back_ends :
      (parse parsed : Option (ParsedElements E)) (index : Option ℕ) (p : ParsedElements E)
      → or_parse parsed parse ≡ some p
      → index_or index p.start_index ≡ 0
      → next_content_in html backward (at parse parsed index)
        ≡ done (some none, at parse (some p) index)
  unfolding next_content_in it_previous_or_nil or_nil has_previous elements pending move_previous
      move_to
  back_ends parse parsed index p e first = rw (e, first) refl

  back_yields :
      (parse parsed : Option (ParsedElements E)) (index : Option ℕ) (p : ParsedElements E) (k : ℕ)
      (x : E)
      → or_parse parsed parse ≡ some p
      → index_or index p.start_index ≡ suc k
      → get_elem? p.elements k ≡ some x
      → next_content_in html backward (at parse parsed index)
        ≡ done (some (some x), at parse (some p) (some k))
  unfolding next_content_in it_previous_or_nil or_nil has_previous elements pending move_previous
      move_to move previous
  back_yields parse parsed index p k x e before found = rw (e, before, found) refl

  back-Yields :
      (parse parsed : Option (ParsedElements E)) (index : Option ℕ) (p : ParsedElements E) (k : ℕ)
      → or_parse parsed parse ≡ some p
      → index_or index p.start_index ≡ k
      → k ≤ length p.elements
      → Yields (next_content_in html backward) (at parse parsed index) (reverse (take k p.elements))
  back-Yields parse parsed index p zero e here h = ended (back_ends parse parsed index p e here)
  back-Yields parse parsed index p (suc k) e here h =
      let found = get_elem-below p.elements k (omega arith) in
      rw (reverse-take-suc p.elements k found.0 found.1) (
        yielded (back_yields parse parsed index p k found.0 e here found.1)
          (back-Yields parse (some p) (some k) p k refl refl (omega arith)))

  -- Of an HTML resource that parses, with a start index within its elements, the forward traversal gives
  -- the elements from the start index on, in order, each once, and then the end; the backward traversal
  -- gives those before the start index, the last one first, and then the end.
  pub html-Yields :
      (p : ParsedElements E)
      → p.start_index ≤ length p.elements
      → Yields (next_content_in html foward) (new_html (some p)) (drop p.start_index p.elements)
        × Yields
            (next_content_in html backward)
            (new_html (some p))
            (reverse (take p.start_index p.elements))
  html-Yields p h = (
    at-Yields (some p) none none p (drop p.start_index p.elements) refl refl,
    back-Yields (some p) none none p p.start_index refl refl h,
  )

  result_start :
      {V : Type 0} (memory : List V) (a : ℕ) (v : V) (xs : List E) (start : ℕ)
      → get_elem? memory a ≡ some v
      → result memory (some a) xs start ≡ record { elements = xs; start_index = start }
  unfolding result
  result_start memory a v xs start stored =
      let older : (a == length memory) ≡ false = ground (arith, allocated memory a v stored) in
      rw older refl

  -- Where the locator's pointer to the progression leads to a variable that is allocated, with any value
  -- v, hence also with 1.0, and the start index of the converter lies within its elements: the HTML
  -- resource that Result makes is traversed from that start index, so that backward come only the
  -- elements before it, and forward all those from it on, although a progression of 1.0 stands for the
  -- end.
  pub html_progression-Yields :
      {V : Type 0} (memory : List V) (a : ℕ) (v : V) (xs : List E) (start : ℕ)
      → get_elem? memory a ≡ some v
      → start ≤ length xs
      → Yields
          (next_content_in html foward)
          (new_html (some (result memory (some a) xs start)))
          (drop start xs)
        × Yields
            (next_content_in html backward)
            (new_html (some (result memory (some a) xs start)))
            (reverse (take start xs))
  html_progression-Yields memory a v xs start stored h =
      rw (result_start memory a v xs start stored)
        (html-Yields (record { elements = xs; start_index = start }) h)
