-- ===== src/Search/Corpus/Valid.antt =====
-- pkg/search/corpus.go: what ties the coordinate systems of a resource together.
use go_toolkit.Prelude.{
  ℕ, suc, ◌≤◌, ◌<◌, ◌≡◌, List, [], ◌∷◌, ◌++◌, length, length-append, replicate, length-replicate,
  All, All-append, All-map, All-replicate, arith,
}
use go_toolkit.Search.Corpus.{Extract, push_rune}

abbrev pub IsSorted : List ℕ → Type 0
IsSorted [] = Unit
IsSorted (x ∷ xs) = All (λ y. x ≤ y) xs × IsSorted xs

pub IsSorted-concat :
    (xs : List ℕ) (p : ℕ) → IsSorted xs → All (λ x. x ≤ p) xs → IsSorted (xs ++ p ∷ [])
IsSorted-concat [] p s h = (tt, tt)
IsSorted-concat (x ∷ xs) p (hx, s) (h, hs) =
    (All-append (λ y. x ≤ y) xs (p ∷ []) hx (h, tt), IsSorted-concat xs p s hs)

-- One offset for each rune, one source for each folded rune, sources that exist, and offsets that
-- do not decrease and stay below `bound`.
pub record IsConsistent (bound : ℕ) (st : Extract) : Type 0 where
  pub offsets : length st.plain_off ≡ length st.norm_runes
  pub sources : length st.src_idx ≡ length st.fold_runes
  pub named : All (λ i. i < length st.norm_runes) st.src_idx
  pub sorted : IsSorted st.plain_off
  pub below : All (λ o. o < bound) st.plain_off

pub IsConsistent-weaken : {b c : ℕ} (st : Extract) → b ≤ c → IsConsistent b st → IsConsistent c st
IsConsistent-weaken {b} {c} st h v = record {
  offsets = v.offsets;
  sources = v.sources;
  named = v.named;
  sorted = v.sorted;
  below = All-map (λ o. o < b) (λ o. o < c) st.plain_off (λ o p. omega arith) v.below;
}

-- a rune whose offset is not before the others'
pub push_rune-IsConsistent :
    (b c : ℕ) (r : ℕ) (folded : List ℕ) (poff : ℕ) (st : Extract)
    → b ≤ suc poff
    → poff < c
    → IsConsistent b st
    → IsConsistent c (push_rune r folded poff st)
unfolding push_rune
push_rune-IsConsistent b c r folded poff st h k v = record {
  offsets = omega (
    arith,
    v.offsets,
    length-append st.plain_off (poff ∷ []),
    length-append st.norm_runes (r ∷ []),
  );
  sources = omega (
    arith,
    v.sources,
    length-append st.src_idx (replicate (length folded) (length st.norm_runes)),
    length-append st.fold_runes folded,
    length-replicate {0} (length folded) (length st.norm_runes),
  );
  named =
      let grown = length-append st.norm_runes (r ∷ []) in
      All-append _ st.src_idx (replicate (length folded) (length st.norm_runes))
        (All-map (λ i. i < length st.norm_runes) (λ i. i < length (st.norm_runes ++ r ∷ []))
          st.src_idx (λ i p. omega arith) v.named)
        (All-replicate _ (length folded) (length st.norm_runes) (omega arith));
  sorted =
      IsSorted-concat st.plain_off poff v.sorted
        (All-map (λ o. o < b) (λ o. o ≤ poff) st.plain_off (λ o p. omega arith) v.below);
  below =
      All-append (λ o. o < c) st.plain_off (poff ∷ [])
        (All-map (λ o. o < b) (λ o. o < c) st.plain_off (λ o p. omega arith) v.below) (k, tt);
}
