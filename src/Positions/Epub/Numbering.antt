-- ===== src/Positions/Epub/Numbering.antt =====
-- pkg/parser/epub/positions_service.go: how the positions of an EPUB are numbered and grouped.
use mathlib.Core.Path.{subst}
use go_toolkit.Prelude.{
  ℕ, zero, suc, ◌+◌, ◌-◌, ◌≡◌, refl, sym, ap, ◌∙◌, Bool, true, false, some, List, [], ◌∷◌, ◌++◌,
  length, length-append, if◌then◌else◌, arith,
}
use go_toolkit.Positions.Locators.{
  Link, Locator, flatten, IsConsecutive, IsConsecutive-append, IsProgressing, IsNumbering,
}
use go_toolkit.Positions.Epub.{
  create_locator, create_fixed, reflowable_from, create_reflowable, last_position, locators_of,
  total_page_count, with_total, with_totals, compute_positions,
}

last_position-cons :
    (k previous : ℕ) (l : Locator) (ls : List Locator)
    → IsConsecutive k (l ∷ ls)
    → last_position (l ∷ ls) previous ≡ suc (k + length ls)
unfolding last_position
last_position-cons k previous l [] (h, _) = rw h (omega arith)
last_position-cons k previous _ (l ∷ ls) (_, hs) =
    last_position-cons (suc k) previous l ls hs ∙ omega arith

last_position-IsConsecutive :
    (k : ℕ) (ls : List Locator) → IsConsecutive k ls → last_position ls k ≡ k + length ls
unfolding last_position
last_position-IsConsecutive k [] h = omega arith
last_position-IsConsecutive k (l ∷ ls) h = last_position-cons k k l ls h ∙ omega arith

reflowable_from-IsConsecutive :
    (link : Link) (start n p k : ℕ) → IsConsecutive (start + p) (reflowable_from link start n p k)
unfolding reflowable_from create_locator
reflowable_from-IsConsecutive link start n p zero = tt
reflowable_from-IsConsecutive link start n p (suc k) = (
  ap some (omega arith),
  subst (λ j. IsConsecutive j (reflowable_from link start n (suc p) k)) (omega arith)
      (reflowable_from-IsConsecutive link start n (suc p) k),
)

created-IsConsecutive :
    (count : Link → ℕ) (is_fixed : Bool) (link : Link) (previous : ℕ)
    → IsConsecutive previous
        (if is_fixed then create_fixed link previous else create_reflowable count link previous)
unfolding create_fixed create_reflowable create_locator
created-IsConsecutive count true link previous = (ap some (omega arith), tt)
created-IsConsecutive count false link previous =
    subst (λ j. IsConsecutive j (reflowable_from link previous (count link) 0 (count link)))
      (omega arith) (reflowable_from-IsConsecutive link previous (count link) 0 (count link))

locators_of-IsConsecutive :
    (count : Link → ℕ) (is_fixed : Bool) (links : List Link) (previous : ℕ)
    → IsConsecutive previous (flatten (locators_of count is_fixed links previous))
unfolding locators_of flatten
locators_of-IsConsecutive count is_fixed [] previous = tt
locators_of-IsConsecutive count is_fixed (link ∷ links) previous =
    let g =
      if is_fixed then create_fixed link previous else create_reflowable count link previous in
    let h = created-IsConsecutive count is_fixed link previous in
    let rest = locators_of-IsConsecutive count is_fixed links (last_position g previous) in
    IsConsecutive-append previous g _ h (
      subst
        (λ j.
          IsConsecutive j (flatten (locators_of count is_fixed links (last_position g previous))))
        (last_position-IsConsecutive previous g h) rest)

with_total-IsConsecutive :
    (n k : ℕ) (ls : List Locator) → IsConsecutive k ls → IsConsecutive k (with_total n ls)
unfolding with_total
with_total-IsConsecutive n k [] h = tt
with_total-IsConsecutive n k (l ∷ ls) (h, hs) = (h, with_total-IsConsecutive n (suc k) ls hs)

with_total-IsProgressing :
    (n k : ℕ) (ls : List Locator) → IsConsecutive k ls → IsProgressing k n (with_total n ls)
unfolding with_total
with_total-IsProgressing n k [] h = tt
with_total-IsProgressing n k (l ∷ ls) (h, hs) =
    let pred : suc k - 1 ≡ k = omega arith in
    (rw (h, pred) refl, with_total-IsProgressing n (suc k) ls hs)

with_total-append :
    (n : ℕ) (xs ys : List Locator) → with_total n (xs ++ ys) ≡ with_total n xs ++ with_total n ys
unfolding with_total
with_total-append n [] ys = refl
with_total-append n (x ∷ xs) ys = rw (with_total-append n xs ys) refl

length-with_total : (n : ℕ) (ls : List Locator) → length (with_total n ls) ≡ length ls
unfolding with_total
length-with_total n [] = refl
length-with_total n (l ∷ ls) = ap suc (length-with_total n ls)

flatten-with_totals :
    (n : ℕ) (ps : List (List Locator)) → flatten (with_totals n ps) ≡ with_total n (flatten ps)
unfolding flatten with_totals with_total
flatten-with_totals n [] = refl
flatten-with_totals n (p ∷ ps) =
    ap (◌++◌ (with_total n p)) (flatten-with_totals n ps) ∙ sym (with_total-append n p (flatten ps))

length-flatten : (ps : List (List Locator)) → length (flatten ps) ≡ total_page_count ps
unfolding flatten total_page_count
length-flatten [] = refl
length-flatten (p ∷ ps) = omega (arith, length-append p (flatten ps), length-flatten ps)

-- The positions of an EPUB, reflowable or fixed, are numbered from 1 on across the resources, and
-- their total progression grows by equal steps and stays below 1.
pub compute_positions-IsNumbering :
    (count : Link → ℕ) (is_fixed : Bool) (links : List Link)
    → IsNumbering (flatten (compute_positions count is_fixed links))
unfolding compute_positions
compute_positions-IsNumbering count is_fixed links =
    let ps = locators_of count is_fixed links 0 in
    let n = total_page_count ps in
    let h = locators_of-IsConsecutive count is_fixed links 0 in
    rw (flatten-with_totals n ps, length-with_total n (flatten ps), length-flatten ps)
      (with_total-IsConsecutive n 0 (flatten ps) h, with_total-IsProgressing n 0 (flatten ps) h)
