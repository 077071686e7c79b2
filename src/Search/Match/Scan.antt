-- ===== src/Search/Match/Scan.antt =====
-- pkg/search/match.go: which positions findInResource reports.
use go_toolkit.Prelude.{
  ℕ, zero, suc, ◌+◌, ◌-◌, ◌≤◌, ◌<◌, ◌≡◌, sym, ap, ◌∙◌, ◌⊎◌, inl, inr, some, List, [], ◌∷◌, leb, ltb,
  length, get_elem?, get_elem-below, All, All-map, arith, Bool-cases, leb→le, leb→lt, ltb→lt,
  ltb→le, ◌≢◌,
}
use go_toolkit.Prelude.Panic.{done, index_before, Ends, Ends-bind, Ends-map}
use go_toolkit.Search.Text.{Unicode, is_word_rune}
use go_toolkit.Search.Match.{is_hit, hits, scan}
use go_toolkit.Search.Match.Occurrence.{Occurs, Tells, is_hit-Tells, index-at}

-- the position lies in one of the reported occurrences, each `m` runes long
abbrev pub Covers : ℕ → ℕ → List ℕ → Type 0
Covers m i [] = ⊥
Covers m i (j ∷ js) = ((j ≤ i) × (i < j + m)) ⊎ Covers m i js

-- the occurrences follow one another and do not overlap
abbrev pub IsSpaced : ℕ → List ℕ → Type 0
IsSpaced m [] = Unit {0}
IsSpaced m (j ∷ js) = All (λ k. j + m ≤ k) js × IsSpaced m js

-- What a scan from the position `i` on reports: occurrences from there on, which do not overlap, and
-- of every occurrence from there on at least the first position is covered.
pub record IsScan (u : Unicode) (folded q : List ℕ) (i : ℕ) (js : List ℕ) : Type 0 where
  pub sound : All (Occurs u folded q) js
  pub later : All (λ j. i ≤ j) js
  pub spaced : IsSpaced (length q) js
  pub complete : (k : ℕ) → i ≤ k → Occurs u folded q k → Covers (length q) k js

All-later : (i k : ℕ) (js : List ℕ) → i ≤ k → All (λ j. k ≤ j) js → All (λ j. i ≤ j) js
All-later i k js h = All-map (λ j. k ≤ j) (λ j. i ≤ j) js (λ j p. omega arith)

index_before-at :
    (q : List ℕ) (r : ℕ)
    → 0 < length q
    → get_elem? q (length q - 1) ≡ some r
    → index_before q (length q) ≡ done r
unfolding index_before
index_before-at [] r m e = absurd (omega arith)
index_before-at (x ∷ xs) r m e =
    let before : suc (length xs) - 1 ≡ length xs = omega arith in
    index-at (x ∷ xs) (length xs) r (ap (get_elem? (x ∷ xs)) (sym before) ∙ e)

module _ (u : Unicode) (folded q : List ℕ) where
  over-IsScan : (i : ℕ) → length folded < i + length q → IsScan u folded q i []
  over-IsScan i h = record {
    sound = tt;
    later = tt;
    spaced = tt;
    complete = λ k le o. absurd (omega (arith, o.within));
  }

  hit-IsScan :
      (i : ℕ) (js : List ℕ)
      → Occurs u folded q i
      → IsScan u folded q (i + length q) js
      → IsScan u folded q i (i ∷ js)
  hit-IsScan i js o s = record {
    sound = (o, s.sound);
    later = (omega arith, All-later i (i + length q) js (omega arith) s.later);
    spaced = (s.later, s.spaced);
    complete = λ k le at. elim (Bool-cases (ltb k (i + length q))) [
      | inl inside ↦ inl (le, ltb→lt _ _ inside)
      | inr behind ↦ inr (s.complete k (ltb→le _ _ behind) at)
    ];
  }

  miss-IsScan :
      (i : ℕ) (js : List ℕ)
      → (Occurs u folded q i → ⊥)
      → IsScan u folded q (suc i) js
      → IsScan u folded q i js
  miss-IsScan i js none_here s = record {
    sound = s.sound;
    later = All-later i (suc i) js (omega arith) s.later;
    spaced = s.spaced;
    complete =
        λ k le at. let other : i ≢ k = λ e. none_here (rw e at) in s.complete k (omega arith) at;
  }

  module _ (first last : ℕ) (starts : get_elem? q 0 ≡ some first)
      (stops : get_elem? q (length q - 1) ≡ some last) where
    hits-IsScan :
        (f i : ℕ)
        → 0 < length q
        → i ≤ length folded
        → length folded < f + i
        → Ends
            (IsScan u folded q i)
            (hits f u folded q (is_word_rune u first) (is_word_rune u last) i)
    unfolding hits
    hits-IsScan zero i m h fuel = absurd (omega arith)
    hits-IsScan (suc f) i m h fuel = elim (Bool-cases (leb (i + length q) (length folded))) [
      | inr over ↦ rw (over, hits) (over-IsScan i (leb→lt _ _ over))
      | inl within ↦
          let inside = leb→le (i + length q) (length folded) within in
          rw (within, hits)
            (Ends-bind (Tells (Occurs u folded q i)) _
              (is_hit u folded q (is_word_rune u first) (is_word_rune u last) i) _
              (is_hit-Tells u folded q first last i starts stops inside)
              (λ hit told. elim (Bool-cases hit) [
                | inl found ↦ rw found (
                    Ends-bind (IsScan u folded q (i + length q)) _ _ _
                      (hits-IsScan f (i + length q) m inside (omega arith))
                      (λ js s. hit-IsScan i js (told.0 found) s))
                | inr missed ↦ rw missed (
                    Ends-bind (IsScan u folded q (suc i)) _ _ _
                      (hits-IsScan f (suc i) m (omega arith) (omega arith))
                      (λ js s. miss-IsScan i js (λ o. absurd (ground (arith, missed, told.1 o))) s))
              ]))
    ]

  pub scan-IsScan : 0 < length q → Ends (IsScan u folded q 0) (scan u folded q)
  unfolding scan
  scan-IsScan m =
      let first = get_elem-below q 0 m in
      let last = get_elem-below q (length q - 1) (omega arith) in
      let last_rune = index_before-at q last.0 m last.1 in
      rw (index-at q 0 first.0 first.1, last_rune)
        (hits-IsScan first.0 last.0 first.1 last.1 (suc (length folded)) 0 m (omega arith)
          (omega arith))

  -- For a query that is not empty, and any position k at which it occurs, the scan of a resource returns:
  -- it does not panic, also not by an index before the first rune of the text or behind the last one.
  -- The positions that it reports are occurrences, the runes of the query with no word that runs into
  -- them or out of them; they do not overlap; and k lies in one of them.
  pub scan-Covers :
      (k : ℕ)
      → 0 < length q
      → Occurs u folded q k
      → Ends
          (λ js. All (Occurs u folded q) js × IsSpaced (length q) js × Covers (length q) k js)
          (scan u folded q)
  scan-Covers k m o =
      Ends-map (IsScan u folded q 0) _ (scan u folded q) (scan-IsScan m)
        (λ js s. (s.sound, s.spaced, s.complete k (omega arith) o))
