-- ===== src/Search/Match.antt =====
-- pkg/search/match.go: the literal engine. Offsets are never negative, so that the tests `< 0` are
-- left out; an index or a slice expression out of bounds panics. Of a query only the runes are
-- kept, since its `src` is not read.
pub mod Occurrence
pub mod Scan
pub mod Build
pub mod Query
use go_toolkit.Prelude.{
  ℕ, zero, suc, ◌+◌, ◌-◌, min, Bool, true, false, not, ◌&&◌, ◌||◌, Option, none, some, List, [],
  ◌∷◌, ◌++◌, ltb, leb, ◌==◌, if◌then◌else◌, Bytes, length, take, drop, get_or, slice,
}
use go_toolkit.Prelude.Panic.{Run, done, panic, ◌>>=◌, checked_slice, index, index_before}
use go_toolkit.Search.Text.{Rune, Unicode, is_ascii_space, fold_rune, is_word_rune}
use go_toolkit.Search.Corpus.{ResourceText, ends_with_space}

pub record Match : Type 0 where
  pub resource_index : ℕ
  pub start : ℕ
  pub end : ℕ
  pub highlight : Bytes
  pub before : Bytes
  pub after : Bytes

abbrev pub default_context_runes : ℕ
default_context_runes = 48

-- foldAndNormalize: the loop over the runes of the normal form
unfoldable pub fold_loop : Unicode → List Rune → List ℕ → List ℕ
fold_loop u [] q = q
fold_loop u (r ∷ rs) q = fold_loop u rs (
    if is_ascii_space r.value
    then (if ltb 0 (length q) && not (ends_with_space q) then q ++ b' ' ∷ [] else q)
    else q ++ fold_rune u r.value)

unfoldable pub trim_start : List ℕ → List ℕ
trim_start [] = []
trim_start (r ∷ rs) = if r == b' ' then trim_start rs else r ∷ rs

-- drops the values `b` at the end
unfoldable pub trim_end : ℕ → List ℕ → List ℕ
trim_end b [] = []
trim_end b (r ∷ rs) = let rs' = trim_end b rs in if length rs' == 0 && r == b then [] else r ∷ rs'

unfoldable pub fold_and_normalize : Unicode → Bytes → List ℕ
fold_and_normalize u s = trim_end b' ' (trim_start (fold_loop u (u.runes (u.nfc s)) []))

-- equalFolded: the loop over the runes of the first slice indexes both
unfoldable pub equal_folded : List ℕ → List ℕ → Run Bool
equal_folded [] b = done true
equal_folded (x ∷ xs) [] = panic
equal_folded (x ∷ xs) (y ∷ ys) = if x == y then equal_folded xs ys else done false

-- the test `word && inside && isWordRune(rune)`: only where there is a rune is it indexed
unfoldable pub joins_word : Unicode → Bool → Bool → Run ℕ → Run Bool
joins_word u word inside rune =
    if word && inside then (rune >>= λ r. done (is_word_rune u r)) else done false

-- the tests of the loop of findInResource at position `i`
unfoldable pub is_hit : Unicode → List ℕ → List ℕ → Bool → Bool → ℕ → Run Bool
is_hit u folded q first_word last_word i = do
  window ← checked_slice folded i (i + length q)
  same ← equal_folded window q
  elim same [
    | false ↦ done false
    | true ↦ do
      preceded ← joins_word u first_word (ltb 0 i) (index_before folded i)
      elim preceded [
        | true ↦ done false
        | false ↦ do
          let end = i + length q
          followed ← joins_word u last_word (ltb end (length folded)) (index folded end)
          done (not followed)
      ]
  ]

-- the positions at which the loop builds a match; behind one it goes on at its end
unfoldable pub hits : ℕ → Unicode → List ℕ → List ℕ → Bool → Bool → ℕ → Run (List ℕ)
hits zero u folded q first_word last_word i = panic
hits (suc f) u folded q first_word last_word i = elim (leb (i + length q) (length folded)) [
  | false ↦ done []
  | true ↦ do
    hit ← is_hit u folded q first_word last_word i
    rest ← hits f u folded q first_word last_word (if hit then i + length q else suc i)
    done (if hit then i ∷ rest else rest)
]

-- the scan of findInResource for a query that is not empty: the runes at its ends, and the loop
unfoldable pub scan : Unicode → List ℕ → List ℕ → Run (List ℕ)
scan u folded q = do
  first ← index q 0
  last ← index_before q (length q)
  hits (suc (length folded)) u folded q (is_word_rune u first) (is_word_rune u last) 0

-- plainOffsetAfter
unfoldable pub plain_offset_after : ResourceText → ℕ → Run ℕ
plain_offset_after rt e =
    if leb (length rt.norm_runes) e
    then index rt.plain_off (length rt.plain_off - 1)
    else index rt.plain_off e

-- trimContextEdge: at most 16 spaces at the outer edge, then line ends at the end
unfoldable pub trim_front : ℕ → Bytes → Bytes
trim_front zero s = s
trim_front (suc n) [] = []
trim_front (suc n) (b ∷ s) = if is_ascii_space b then trim_front n s else b ∷ s

unfoldable pub trim_back : ℕ → Bytes → Bytes
trim_back zero s = s
trim_back (suc n) s =
    let shorter = trim_back n (take (length s - 1) s) in
    if ltb 0 (length s) && is_ascii_space (get_or s (length s - 1) 0) then shorter else s

unfoldable pub trim_context_edge : Bytes → Bool → Bytes
trim_context_edge s trailing = trim_end 10 (if trailing then trim_back 16 s else trim_front 16 s)

-- contextAround
unfoldable pub context_around : ResourceText → ℕ → ℕ → ℕ → Run (Bytes × Bytes)
context_around rt si se ctx_runes = do
  before_from ← index rt.plain_off (si - ctx_runes)
  before_end ← index rt.plain_off si
  before ←
      if ltb before_from before_end
      then (checked_slice rt.plain before_from before_end >>= λ s. done (trim_context_edge s false))
      else done []
  after_to ← index rt.plain_off (min (se + ctx_runes) (length rt.norm_runes))
  after_from ← index rt.plain_off (min se (length rt.norm_runes))
  after ←
      if ltb after_from after_to
        && leb after_from (length rt.plain)
        && leb after_to (length rt.plain)
      then (checked_slice rt.plain after_from after_to >>= λ s. done (trim_context_edge s true))
      else done []
  done (before, after)

-- buildMatch; `none` stands for the result `Match{}, false`
unfoldable pub build_match : ResourceText → ℕ → ℕ → Run (Option Match)
build_match rt fi fe = do
  si ← index rt.src_idx fi
  last ← index_before rt.src_idx fe
  start ← index rt.plain_off si
  end ← plain_offset_after rt (suc last)
  if leb end start || ltb (length rt.plain) end then done none else do
    (before, after) ← context_around rt si (suc last) default_context_runes
    highlight ← checked_slice rt.plain start end
    done (
        some (record {
          resource_index = rt.index;
          start = start;
          end = end;
          highlight = highlight;
          before = before;
          after = after;
        }))

unfoldable pub build_all : ResourceText → ℕ → List ℕ → Run (List Match)
build_all rt m [] = done []
build_all rt m (i ∷ is) = do
  built ← build_match rt i (i + m)
  rest ← build_all rt m is
  done (elim built [ some x ↦ x ∷ rest | none ↦ rest ])

unfoldable pub find_in_resource : Unicode → ResourceText → List ℕ → Run (List Match)
find_in_resource u rt q =
    if length q == 0 || ltb (length rt.fold_runes) (length q)
    then done []
    else (scan u rt.fold_runes q >>= λ is. build_all rt (length q) is)

-- Find: `cancelled` tells whether ctx.Err() is set before a resource; `none` is that error
unfoldable pub find_loop :
    Unicode → (ResourceText → Bool) → List ResourceText → List ℕ → Run (Option (List Match))
find_loop u cancelled [] q = done (some [])
find_loop u cancelled (rt ∷ rts) q = if cancelled rt then done none else do
  found ← find_in_resource u rt q
  more ← find_loop u cancelled rts q
  done (elim more [ some ms ↦ some (found ++ ms) | none ↦ none ])

unfoldable pub find :
    Unicode → (ResourceText → Bool) → List ResourceText → Bytes → Run (Option (List Match))
find u cancelled resources query =
    let q = fold_and_normalize u query in
    if length q == 0 then done (some []) else find_loop u cancelled resources q
