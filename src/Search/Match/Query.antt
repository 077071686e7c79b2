-- ===== src/Search/Match/Query.antt =====
-- pkg/search/match.go: the folded query.
use go_toolkit.Prelude.{
  ℕ, ◌≡◌, refl, inl, inr, Bool, false, List, [], ◌∷◌, ◌==◌, ◌&&◌, Bytes, length, Bool-cases,
}
use go_toolkit.Search.Text.{Unicode}
use go_toolkit.Search.Corpus.{ends_with_space}
use go_toolkit.Search.Match.{trim_start, trim_end, fold_loop, fold_and_normalize}

abbrev pub starts_with_space : List ℕ → Bool
starts_with_space [] = false
starts_with_space (r ∷ rs) = r == b' '

trim_start-starts : (q : List ℕ) → starts_with_space (trim_start q) ≡ false
unfolding trim_start
trim_start-starts [] = refl
trim_start-starts (r ∷ rs) = elim (Bool-cases (r == b' ')) [
  | inl space ↦ rw space (trim_start-starts rs)
  | inr kept ↦ rw kept kept
]

trim_end-starts :
    (b : ℕ) (q : List ℕ) → starts_with_space q ≡ false → starts_with_space (trim_end b q) ≡ false
unfolding trim_end
trim_end-starts b [] h = refl
trim_end-starts b (r ∷ rs) h = elim (Bool-cases (length (trim_end b rs) == 0 && r == b)) [
  | inl dropped ↦ rw dropped refl
  | inr kept ↦ rw kept h
]

ends_with_space-cons :
    (r : ℕ) (rs : List ℕ)
    → (length rs == 0 && r == b' ') ≡ false
    → ends_with_space rs ≡ false
    → ends_with_space (r ∷ rs) ≡ false
unfolding ends_with_space
ends_with_space-cons r [] h k = h
ends_with_space-cons r (s ∷ rs) h k = k

trim_end-ends : (q : List ℕ) → ends_with_space (trim_end b' ' q) ≡ false
unfolding trim_end ends_with_space
trim_end-ends [] = refl
trim_end-ends (r ∷ rs) = elim (Bool-cases (length (trim_end b' ' rs) == 0 && r == b' ')) [
  | inl dropped ↦ rw dropped refl
  | inr kept ↦ rw kept (ends_with_space-cons r (trim_end b' ' rs) kept (trim_end-ends rs))
]

-- A folded query neither starts nor ends with a space, whatever its text.
fold_and_normalize-trimmed :
    (u : Unicode) (s : Bytes)
    → (starts_with_space (fold_and_normalize u s) ≡ false)
      × (ends_with_space (fold_and_normalize u s) ≡ false)
unfolding fold_and_normalize
fold_and_normalize-trimmed u s =
    let q = fold_loop u (u.runes (u.nfc s)) [] in
    (trim_end-starts b' ' (trim_start q) (trim_start-starts q), trim_end-ends (trim_start q))
