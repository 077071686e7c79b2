-- ===== src/Positions/Pdf.antt =====
-- pkg/parser/pdf/positions_service.go: one position for each page of a document. What looks up a
-- title in the table of contents, and prints a fragment, is a parameter.
use Prim.Native.String.{String}
use go_toolkit.Prelude.{
  ℕ, zero, suc, ◌+◌, ◌≡◌, refl, ap, Option, none, some, List, [], ◌∷◌, length, arith,
}
use go_toolkit.Positions.Locators.{
  Ratio, Link, Locator, flatten, IsConsecutive, IsProgressing, IsNumbering,
}

pub record Toc : Type 0 where
  -- fmt.Sprintf("page=%d", page)
  pub fragment : ℕ → String
  -- the title of the first link to the fragment of the document
  pub title_of : String → String → Option String

-- computePositions: the loop from page `i` on, with `k` pages left
unfoldable pub pages_from : Toc → Link → ℕ → ℕ → ℕ → List (List Locator)
pages_from toc link page_count i zero = []
pages_from toc link page_count i (suc k) =
    let progression : Ratio = record { num = i; den = page_count } in
    let fragment = toc.fragment (i + 1) in
    ((record {
      href = link.href;
      media_type = elim link.media_type [ some typ ↦ typ | none ↦ "application/pdf" ];
      title = elim (toc.title_of link.href fragment) [ some title ↦ title | none ↦ "" ];
      fragments = fragment ∷ [];
      progression = some progression;
      position = some (i + 1);
      total_progression = some progression;
    })
      ∷ [])
    ∷ pages_from toc link page_count (suc i) k

unfoldable pub compute_positions : Toc → Link → ℕ → List (List Locator)
compute_positions toc link page_count = pages_from toc link page_count 0 page_count

module _ (toc : Toc) (link : Link) (n : ℕ) where
  pages_from-IsConsecutive : (i k : ℕ) → IsConsecutive i (flatten (pages_from toc link n i k))
  unfolding pages_from flatten
  pages_from-IsConsecutive i zero = tt
  pages_from-IsConsecutive i (suc k) = (ap some (omega arith), pages_from-IsConsecutive (suc i) k)

  pages_from-IsProgressing : (i k : ℕ) → IsProgressing i n (flatten (pages_from toc link n i k))
  unfolding pages_from flatten
  pages_from-IsProgressing i zero = tt
  pages_from-IsProgressing i (suc k) = (refl, pages_from-IsProgressing (suc i) k)

  pages_from-length : (i k : ℕ) → length (flatten (pages_from toc link n i k)) ≡ k
  unfolding pages_from flatten
  pages_from-length i zero = refl
  pages_from-length i (suc k) = ap suc (pages_from-length (suc i) k)

  pages_from-groups : (i k : ℕ) → length (pages_from toc link n i k) ≡ k
  unfolding pages_from
  pages_from-groups i zero = refl
  pages_from-groups i (suc k) = ap suc (pages_from-groups (suc i) k)

-- A document of n pages has n positions, numbered from 1 on, whose total progression grows by equal
-- steps; they come in n groups, although the reading order has one resource.
pdf_positions-IsNumbering :
    (toc : Toc) (link : Link) (n : ℕ)
    → (length (compute_positions toc link n) ≡ n)
      × (length (flatten (compute_positions toc link n)) ≡ n)
      × IsNumbering (flatten (compute_positions toc link n))
unfolding compute_positions
pdf_positions-IsNumbering toc link n =
    let e = pages_from-length toc link n 0 n in
    (
      pages_from-groups toc link n 0 n,
      e,
      (pages_from-IsConsecutive toc link n 0 n, rw e (pages_from-IsProgressing toc link n 0 n)),
    )
