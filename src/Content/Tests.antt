-- ===== src/Content/Tests.antt =====
-- pkg/content/iterator: a publication of three resources, of which the second has no iterator.
use go_toolkit.Prelude.{
  ℕ, zero, suc, ◌≡◌, refl, Option, none, some, List, [], ◌∷◌, drop, take, reverse, arith,
}
use go_toolkit.Prelude.Panic.{done, ◌>>=◌}
use go_toolkit.Content.Iterator.{Direction, foward, backward, next_content_in, Yields}
use go_toolkit.Content.Html.{ParsedElements, result, HtmlContentIterator, new_html, html}
use go_toolkit.Content.HtmlTraversal.{html-Yields, html_progression-Yields}
use go_toolkit.Content.Publication.{ReadingOrder, new_publication, has, current, advance}
use go_toolkit.Content.Remaining.{Remaining, over, skipped, loaded}
use go_toolkit.Content.Traversal.{publication-Yields, has_next_twice-skips}

abbrev cover : ParsedElements ℕ
cover = record { elements = 10 ∷ []; start_index = 0 }

abbrev chapter : ParsedElements ℕ
chapter = record { elements = 20 ∷ 21 ∷ []; start_index = 0 }

abbrev loading : ℕ → Direction → Option (HtmlContentIterator ℕ)
loading zero d = some (new_html (some cover))
loading (suc zero) d = none
loading (suc (suc i)) d = some (new_html (some chapter))

abbrev spine : ReadingOrder (HtmlContentIterator ℕ)
spine = record {
  size = 3;
  start = none;
  load_at_locator = λ i. loading i foward;
  load_at_progression = loading;
}

spine-Remaining : Remaining html spine 0 (10 ∷ 20 ∷ 21 ∷ [])
spine-Remaining =
    loaded (omega arith) refl (html-Yields cover (omega arith)).0
      (skipped (omega arith) refl
        (loaded (omega arith) refl (html-Yields chapter (omega arith)).0 (over (omega arith)) refl))
      refl

publication-Yields_example : Yields (advance html spine foward) new_publication (10 ∷ 20 ∷ 21 ∷ [])
publication-Yields_example =
    publication-Yields html spine (10 ∷ 20 ∷ 21 ∷ []) (omega arith) refl spine-Remaining

has_next_twice-skips_example :
    (do
      first ← has html spine foward new_publication
      second ← has html spine foward first.1
      current html spine foward second.1)
    ≡ done 20
has_next_twice-skips_example =
    has_next_twice-skips html spine 10 20 (21 ∷ []) (omega arith) refl spine-Remaining

abbrev reopened : ParsedElements ℕ
reopened = record { elements = 20 ∷ 21 ∷ 22 ∷ []; start_index = 2 }

html-Yields_example :
    Yields (next_content_in html foward) (new_html (some reopened)) (22 ∷ [])
    × Yields (next_content_in html backward) (new_html (some reopened)) (21 ∷ 20 ∷ [])
html-Yields_example = html-Yields reopened (omega arith)

-- the numbers 0.3 and 1.0 in tenths; the pointer is that of the second
abbrev numbers : List ℕ
numbers = 3 ∷ 10 ∷ []

abbrev two_paragraphs : List ℕ
two_paragraphs = 20 ∷ 21 ∷ []

html_progression-Yields_example :
    Yields
      (next_content_in html foward)
      (new_html (some (result numbers (some 1) two_paragraphs 1)))
      (drop 1 two_paragraphs)
    × Yields
        (next_content_in html backward)
        (new_html (some (result numbers (some 1) two_paragraphs 1)))
        (reverse (take 1 two_paragraphs))
html_progression-Yields_example =
    html_progression-Yields numbers 1 10 two_paragraphs 1 refl (omega arith)
