-- ===== src/Search/Match/Occurrence.antt =====
-- pkg/search/match.go: what an occurrence of a query is, and that the tests of findInResource tell it.
use go_toolkit.Prelude.{
  ℕ, zero, suc, ◌+◌, ◌-◌, ◌≤◌, ◌<◌, ◌≡◌, refl, sym, ap, ◌∙◌, inl, inr, Bool, true, false, not, ◌&&◌,
  some, List, [], ◌∷◌, ltb, ◌==◌, length, get_elem?, get_elem-below, take, drop, drop-all,
  length-take, slice, length-slice, get_or, arith, Bool-cases, ltb→lt, ltb→le, lt→ltb,
}
use go_toolkit.Prelude.Panic.{
  Run, done, panic, ◌>>=◌, checked_slice-done, index, index_before, Ends, Ends-bind, Ends-map,
}
use mathlib.Core.Option.{some-injective}
use go_toolkit.Search.Text.{Unicode, is_word_rune}
use go_toolkit.Search.Match.{equal_folded, joins_word, is_hit}

-- no word runs from the end of the first text into the second: the runes at the seam, if both texts
-- have one, are not both runes of a word
abbrev pub IsBoundary : Unicode → List ℕ → List ℕ → Type 0
IsBoundary u xs ys =
    (a b : ℕ)
    → get_elem? xs (length xs - 1) ≡ some a
    → get_elem? ys 0 ≡ some b
    → (is_word_rune u a && is_word_rune u b) ≡ false

-- The query stands in the text at the position `k`, and no word runs into it or out of it.
pub record Occurs (u : Unicode) (folded q : List ℕ) (k : ℕ) : Type 0 where
  pub within : k + length q ≤ length folded
  pub same : slice folded k (k + length q) ≡ q
  pub starts : IsBoundary u (take k folded) q
  pub ends : IsBoundary u q (drop (k + length q) folded)

-- the Boolean tells whether the proposition holds
abbrev pub Tells : Type 0 → Bool → Type 0
Tells P b = (b ≡ true → P) × (P → b ≡ true)

-- the Boolean tells whether the proposition fails
abbrev Refuses : Type 0 → Bool → Type 0
Refuses P b = (b ≡ false → P) × (P → b ≡ false)

get_elem?-take : (xs : List ℕ) (n i : ℕ) → i < n → get_elem? (take n xs) i ≡ get_elem? xs i
get_elem?-take xs zero i h = absurd (omega arith)
get_elem?-take [] (suc n) i h = refl
get_elem?-take (x ∷ xs) (suc n) zero h = refl
get_elem?-take (x ∷ xs) (suc n) (suc i) h = get_elem?-take xs n i (omega arith)

get_elem?-drop : (xs : List ℕ) (n : ℕ) → get_elem? (drop n xs) 0 ≡ get_elem? xs n
get_elem?-drop xs zero = refl
get_elem?-drop [] (suc n) = refl
get_elem?-drop (x ∷ xs) (suc n) = get_elem?-drop xs n

Bool-and_comm : (a b : Bool) → (a && b) ≡ false → (b && a) ≡ false
Bool-and_comm true true h = h
Bool-and_comm true false h = refl
Bool-and_comm false true h = refl
Bool-and_comm false false h = refl

equal_folded-Tells :
    (xs ys : List ℕ) → length xs ≡ length ys → Ends (Tells (xs ≡ ys)) (equal_folded xs ys)
unfolding equal_folded
equal_folded-Tells [] [] h = (λ e. refl, λ e. refl)
equal_folded-Tells [] (y ∷ ys) h = absurd (omega arith)
equal_folded-Tells (x ∷ xs) [] h = absurd (omega arith)
equal_folded-Tells (x ∷ xs) (y ∷ ys) h = elim (Bool-cases (x == y)) [
  | inl same ↦
      let head : x ≡ y = ground (arith, same) in
      rw (same, head)
        (Ends-map (Tells (xs ≡ ys)) (Tells ((y ∷ xs) ≡ (y ∷ ys))) (equal_folded xs ys)
          (equal_folded-Tells xs ys (omega arith))
          (λ b t. (λ e. ap (λ zs. y ∷ zs) (t.0 e), λ e. t.1 (ap (drop 1) e))))
  | inr other ↦ rw other (
    λ e. absurd (ground (arith, e)),
    λ e. absurd (ground (arith, other, ap (λ zs. get_or zs 0 0) e)),
  )
]

-- the runes at the seam decide
seam-IsBoundary :
    (u : Unicode) (xs ys : List ℕ) (a b : ℕ)
    → get_elem? xs (length xs - 1) ≡ some a
    → get_elem? ys 0 ≡ some b
    → (is_word_rune u a && is_word_rune u b) ≡ false
    → IsBoundary u xs ys
seam-IsBoundary u xs ys a b ea eb h a' b' ea' eb' =
    let same_a = some-injective _ _ (sym ea ∙ ea') in
    let same_b = some-injective _ _ (sym eb ∙ eb') in rw (← same_a, ← same_b) h

pub index-at : (xs : List ℕ) (i r : ℕ) → get_elem? xs i ≡ some r → index xs i ≡ done r
unfolding index
index-at xs i r e = rw (index, e) refl

joins_word-inside :
    (u : Unicode) (word inside : Bool) (rune : Run ℕ) (r : ℕ)
    → inside ≡ true
    → rune ≡ done r
    → joins_word u word inside rune ≡ done (word && is_word_rune u r)
unfolding joins_word
joins_word-inside u true inside rune r h e = rw (h, e) refl
joins_word-inside u false inside rune r h e = refl

joins_word-outside :
    (u : Unicode) (word inside : Bool) (rune : Run ℕ)
    → inside ≡ false
    → joins_word u word inside rune ≡ done false
unfolding joins_word
joins_word-outside u true inside rune h = rw h refl
joins_word-outside u false inside rune h = refl

module _ (u : Unicode) (folded q : List ℕ) (first last : ℕ) where
  preceded-Refuses :
      (k : ℕ)
      → get_elem? q 0 ≡ some first
      → k ≤ length folded
      → Ends
          (Refuses (IsBoundary u (take k folded) q))
          (joins_word u (is_word_rune u first) (ltb 0 k) (index_before folded k))
  unfolding index_before
  preceded-Refuses zero e h =
      rw (joins_word-outside u (is_word_rune u first) (ltb 0 0) panic refl)
        (λ x a b ea eb. absurd (ground (arith, ea)), λ x. refl)
  preceded-Refuses (suc k) e h =
      let rune = get_elem-below folded k (omega arith) in
      let size : length (take (suc k) folded) - 1 ≡ k = omega (arith, length-take (suc k) folded) in
      let at_end : get_elem? (take (suc k) folded) (length (take (suc k) folded) - 1)
          ≡ some rune.0 =
        ap (get_elem? (take (suc k) folded)) size
        ∙ get_elem?-take folded (suc k) k (omega arith)
        ∙ rune.1 in
      rw
        (joins_word-inside u (is_word_rune u first) (ltb 0 (suc k)) (index folded k) rune.0
          (lt→ltb 0 (suc k) (omega arith)) (index-at folded k rune.0 rune.1))
        (
          λ x.
              seam-IsBoundary u (take (suc k) folded) q rune.0 first at_end e
                (Bool-and_comm (is_word_rune u first) (is_word_rune u rune.0) x),
          λ x.
              Bool-and_comm (is_word_rune u rune.0) (is_word_rune u first)
                (x rune.0 first at_end e),
        )

  followed-Refuses :
      (k : ℕ)
      → get_elem? q (length q - 1) ≡ some last
      → Ends
          (Refuses (IsBoundary u q (drop k folded)))
          (joins_word u (is_word_rune u last) (ltb k (length folded)) (index folded k))
  followed-Refuses k e = elim (Bool-cases (ltb k (length folded))) [
    | inr over ↦
        rw
          (
            joins_word-outside u (is_word_rune u last) (ltb k (length folded)) (index folded k)
                over,
            drop-all k folded (ltb→le k (length folded) over),
          )
          (λ x a b ea eb. absurd (ground (arith, eb)), λ x. refl)
    | inl inside ↦
        let rune = get_elem-below folded k (ltb→lt _ _ inside) in
        let at_start : get_elem? (drop k folded) 0 ≡ some rune.0 =
          get_elem?-drop folded k ∙ rune.1 in
        rw
          (joins_word-inside u (is_word_rune u last) (ltb k (length folded)) (index folded k) rune.0
            inside (index-at folded k rune.0 rune.1))
          (
            λ x. seam-IsBoundary u q (drop k folded) last rune.0 e at_start x,
            λ x. x last rune.0 e at_start,
          )
  ]

  -- the tests behind equalFolded
  words-Tells :
      (k : ℕ)
      → get_elem? q 0 ≡ some first
      → get_elem? q (length q - 1) ≡ some last
      → k + length q ≤ length folded
      → slice folded k (k + length q) ≡ q
      → Ends (Tells (Occurs u folded q k)) (
          joins_word u (is_word_rune u first) (ltb 0 k) (index_before folded k) >>= λ preceded.
          elim preceded [
            | true ↦ done false
            | false ↦
                joins_word u
                  (is_word_rune u last)
                  (ltb (k + length q) (length folded))
                  (index folded (k + length q))
                >>= λ followed. done (not followed)
          ])
  words-Tells k ef el h equals =
      Ends-bind (Refuses (IsBoundary u (take k folded) q)) (Tells (Occurs u folded q k)) _ _
        (preceded-Refuses k ef (omega arith))
        (λ p tp. elim (Bool-cases p) [
          | inl joined ↦
              rw joined (
                λ e. absurd (ground (arith, e)),
                λ o. absurd (ground (arith, joined, tp.1 o.starts)),
              )
          | inr apart ↦ rw apart (
              Ends-bind (Refuses (IsBoundary u q (drop (k + length q) folded)))
                (Tells (Occurs u folded q k)) _ _ (followed-Refuses (k + length q) el)
                (λ f tf. (
                  λ e. record {
                    within = h;
                    same = equals;
                    starts = tp.0 apart;
                    ends = tf.0 (ground (arith, e));
                  },
                  λ o. ground (arith, tf.1 o.ends),
                )))
        ])

  -- Within the text the tests of the loop do not panic, and they hold exactly where the query occurs.
  pub is_hit-Tells :
      (k : ℕ)
      → get_elem? q 0 ≡ some first
      → get_elem? q (length q - 1) ≡ some last
      → k + length q ≤ length folded
      → Ends
          (Tells (Occurs u folded q k))
          (is_hit u folded q (is_word_rune u first) (is_word_rune u last) k)
  unfolding is_hit
  is_hit-Tells k ef el h =
      let window = slice folded k (k + length q) in
      rw (checked_slice-done folded k (k + length q) (omega arith) h) (
        Ends-bind (Tells (window ≡ q)) _ (equal_folded window q) _
          (equal_folded-Tells window q (omega (arith, length-slice folded k (k + length q))))
          (λ same ts. elim (Bool-cases same) [
            | inr differs ↦
                rw differs (λ e. absurd (ground (arith, e)), λ o. sym differs ∙ ts.1 o.same)
            | inl equals ↦ rw equals (words-Tells k ef el h (ts.0 equals))
          ]))
