-- ===== src/Content/Html.antt =====
-- pkg/content/iterator/html.go, and Result of html_converter.go: the iterator over the elements of an
-- HTML resource. Reading and parsing are a parameter, the elements and the index to start at.
use go_toolkit.Prelude.{
  ℕ, zero, suc, Bool, true, false, Option, none, some, List, ◌==◌, if◌then◌else◌, length, get_elem?,
}
use go_toolkit.Prelude.Panic.{Run, done, panic}
use go_toolkit.Content.Iterator.{Direction, foward, backward, Iterator}

pub record ParsedElements (E : Type 0) : Type 0 where
  pub elements : List E
  pub start_index : ℕ

-- `p == &one` for the addresses of two variables
abbrev pub points_to : Option ℕ → ℕ → Bool
points_to none one = false
points_to (some p) one = p == one

module _ {E : Type 0} where
  -- HTMLConverter.Result: the memory is the list of the numbers that are allocated, and an address is
  -- an index of it; `progression` is the pointer of the locator, none for nil, and the new variable
  -- `one` stands behind all that is allocated
  unfoldable pub result : {V : Type 0} → List V → Option ℕ → List E → ℕ → ParsedElements E
  result memory progression elements start_index =
      let one = length memory in
      if points_to progression one
      then record { elements = elements; start_index = length elements }
      else record { elements = elements; start_index = start_index }

-- `parse` is what parseElements returns
pub record HtmlContentIterator (E : Type 0) : Type 0 where
  pub parse : Option (ParsedElements E)
  pub parsed_elements : Option (ParsedElements E)
  pub current_element : Option (E × Direction)
  pub current_index : Option ℕ

-- the index to go on with, for the index to start at
abbrev pub index_after : Option ℕ → ℕ → ℕ
index_after none start = start
index_after (some i) start = suc i

abbrev pub index_or : Option ℕ → ℕ → ℕ
index_or none start = start
index_or (some i) start = i

module _ {E : Type 0} where
  abbrev pub new_html : Option (ParsedElements E) → HtmlContentIterator E
  new_html parse = record {
    parse = parse;
    parsed_elements = none;
    current_element = none;
    current_index = none;
  }

  abbrev pub or_parse :
      Option (ParsedElements E) → Option (ParsedElements E) → Option (ParsedElements E)
  or_parse none parse = parse
  or_parse (some p) parse = some p

  -- the elements, and the iterator that keeps them
  unfoldable pub elements :
      HtmlContentIterator E → Option (ParsedElements E) × HtmlContentIterator E
  elements it =
      let p = or_parse it.parsed_elements it.parse in (p, record it { parsed_elements = p })

  -- an element that was announced in a direction and not yet taken
  unfoldable pub pending : Direction → Option (E × Direction) → Option E
  pending d none = none
  pending foward (some (e, foward)) = some e
  pending foward (some (e, backward)) = none
  pending backward (some (e, foward)) = none
  pending backward (some (e, backward)) = some e

  unfoldable pub move :
      Direction → Option E → ℕ → HtmlContentIterator E → Option Bool × HtmlContentIterator E
  move d none index it = (some false, it)
  move d (some e) index it =
      (some true, record it { current_element = some (e, d); current_index = some index })

  unfoldable pub move_next :
      Option (ParsedElements E) × HtmlContentIterator E → Option Bool × HtmlContentIterator E
  move_next (none, it) = (none, it)
  move_next (some p, it) =
      let index = index_after it.current_index p.start_index in
      move foward (get_elem? p.elements index) index it

  -- an index below 0 is refused
  unfoldable pub move_to :
      ParsedElements E → ℕ → HtmlContentIterator E → Option Bool × HtmlContentIterator E
  move_to p zero it = (some false, it)
  move_to p (suc index) it = move backward (get_elem? p.elements index) index it

  unfoldable pub move_previous :
      Option (ParsedElements E) × HtmlContentIterator E → Option Bool × HtmlContentIterator E
  move_previous (none, it) = (none, it)
  move_previous (some p, it) = move_to p (index_or it.current_index p.start_index) it

  abbrev pub unless_pending :
      Option E
      → Option Bool × HtmlContentIterator E
      → HtmlContentIterator E
      → Option Bool × HtmlContentIterator E
  unless_pending (some e) moved it = (some true, it)
  unless_pending none moved it = moved

  unfoldable pub has_next : HtmlContentIterator E → Option Bool × HtmlContentIterator E
  has_next it = unless_pending (pending foward it.current_element) (move_next (elements it)) it

  unfoldable pub has_previous : HtmlContentIterator E → Option Bool × HtmlContentIterator E
  has_previous it =
      unless_pending (pending backward it.current_element) (move_previous (elements it)) it

  abbrev pub take_pending : Option E → HtmlContentIterator E → Run (E × HtmlContentIterator E)
  take_pending none it = panic
  take_pending (some e) it = done (e, record it { current_element = none })

  unfoldable pub next : HtmlContentIterator E → Run (E × HtmlContentIterator E)
  next it = take_pending (pending foward it.current_element) it

  unfoldable pub previous : HtmlContentIterator E → Run (E × HtmlContentIterator E)
  previous it = take_pending (pending backward it.current_element) it

  abbrev pub html : Iterator (HtmlContentIterator E) E
  html = record {
    has_next = has_next;
    next = next;
    has_previous = has_previous;
    previous = previous;
  }
