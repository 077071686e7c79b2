-- ===== src/Audio/Durations/OggPages.antt =====
-- pkg/parser/audio/ogg.go: the pages of a window, and where bytes.Index finds them.
use go_toolkit.Prelude.{
  ℕ, zero, suc, ◌+◌, ◌≤◌, ◌<◌, ◌≡◌, ◌≢◌, refl, sym, inl, inr, true, false, none, some, [], ◌∷◌,
  Bytes, length, get_or, get_or-drop, drop, slice, arith, Bool-cases, Option-cases,
}
use go_toolkit.Audio.Durations.Decoding.{equal_bytes, has_prefix, from_le}
use go_toolkit.Audio.Durations.Ogg.{ogg_capture_pattern, index_of, no_granule}

-- A page begins at `p`: its capture pattern, and room for a header.
abbrev pub IsPageAt : Bytes → ℕ → Type 0
IsPageAt tail p = (has_prefix (drop p tail) ogg_capture_pattern ≡ true) × (p + 27 ≤ length tail)

abbrev pub granule_at : Bytes → ℕ → ℕ
granule_at tail p = from_le (slice tail (p + 6) (p + 14))

-- The pages from `i` on have no granule.
abbrev pub AllEmpty : Bytes → ℕ → Type 0
AllEmpty tail i = (p : ℕ) → i ≤ p → IsPageAt tail p → granule_at tail p ≡ no_granule

-- `q` is the last page with a granule.
abbrev pub IsLastPage : Bytes → ℕ → Type 0
IsLastPage tail q = IsPageAt tail q × (granule_at tail q ≢ no_granule) × AllEmpty tail (suc q)

pub index_of-found :
    (bs : Bytes) (k j : ℕ)
    → index_of bs ogg_capture_pattern ≡ some k
    → (has_prefix (drop k bs) ogg_capture_pattern ≡ true)
      × (j < k → has_prefix (drop j bs) ogg_capture_pattern ≡ false)
unfolding index_of has_prefix equal_bytes
index_of-found [] k j e = absurd (ground (arith, e))
index_of-found (b ∷ bs) k j e = elim (Bool-cases (has_prefix (b ∷ bs) ogg_capture_pattern)) [
  | inl here ↦ first k (ground (arith, e, here)) here
  | inr later ↦ elim (Option-cases (index_of bs ogg_capture_pattern)) [
    | inl missing ↦ absurd (ground (arith, e, later, missing))
    | inr (k', found) ↦
        next j k' k (ground (arith, e, later, found)) later (λ j'. index_of-found bs k' j' found)
  ]
]
  where
    first :
        (k : ℕ)
        → k ≡ 0
        → has_prefix (b ∷ bs) ogg_capture_pattern ≡ true
        → (has_prefix (drop k (b ∷ bs)) ogg_capture_pattern ≡ true)
          × (j < k → has_prefix (drop j (b ∷ bs)) ogg_capture_pattern ≡ false)
    first zero z here = (here, λ h. absurd (omega arith))
    first (suc k) z here = absurd (omega arith)

    next :
        (j k' k : ℕ)
        → k ≡ suc k'
        → has_prefix (b ∷ bs) ogg_capture_pattern ≡ false
        → ((j' : ℕ)
            → (has_prefix (drop k' bs) ogg_capture_pattern ≡ true)
              × (j' < k' → has_prefix (drop j' bs) ogg_capture_pattern ≡ false))
        → (has_prefix (drop k (b ∷ bs)) ogg_capture_pattern ≡ true)
          × (j < k → has_prefix (drop j (b ∷ bs)) ogg_capture_pattern ≡ false)
    next j k' zero z later ih = absurd (omega arith)
    next zero k' (suc k) z later ih =
        let same : k' ≡ k = omega arith in rw (sym same) ((ih 0).0, λ h. later)
    next (suc j) k' (suc k) z later ih =
        let same : k' ≡ k = omega arith in rw (sym same) ((ih j).0, λ h. (ih j).1 (omega arith))

pub index_of-missing :
    (bs : Bytes) (j : ℕ)
    → index_of bs ogg_capture_pattern ≡ none
    → has_prefix (drop j bs) ogg_capture_pattern ≡ false
unfolding index_of has_prefix equal_bytes
index_of-missing [] zero e = refl
index_of-missing [] (suc j) e = refl
index_of-missing (b ∷ bs) j e = elim (Bool-cases (has_prefix (b ∷ bs) ogg_capture_pattern)) [
  | inl here ↦ absurd (ground (arith, e, here))
  | inr later ↦ elim (Option-cases (index_of bs ogg_capture_pattern)) [
    | inr (k, found) ↦ absurd (ground (arith, e, later, found))
    | inl missing ↦ beyond j later missing (λ j'. index_of-missing bs j' missing)
  ]
]
  where
    beyond :
        (j : ℕ)
        → has_prefix (b ∷ bs) ogg_capture_pattern ≡ false
        → index_of bs ogg_capture_pattern ≡ none
        → ((j' : ℕ) → has_prefix (drop j' bs) ogg_capture_pattern ≡ false)
        → has_prefix (drop j (b ∷ bs)) ogg_capture_pattern ≡ false
    beyond zero later missing ih = later
    beyond (suc j) later missing ih = ih j

pattern_bytes :
    (bs : Bytes)
    → has_prefix bs ogg_capture_pattern ≡ true
    → (get_or bs 0 0 ≡ 79) × (get_or bs 1 0 ≡ 103) × (get_or bs 2 0 ≡ 103) × (get_or bs 3 0 ≡ 83)
unfolding has_prefix equal_bytes
pattern_bytes [] h = absurd (ground (arith, h))
pattern_bytes (a ∷ []) h = absurd (ground (arith, h))
pattern_bytes (a ∷ b ∷ []) h = absurd (ground (arith, h))
pattern_bytes (a ∷ b ∷ c ∷ []) h = absurd (ground (arith, h))
pattern_bytes (a ∷ b ∷ c ∷ d ∷ bs) h =
    (ground (arith, h), ground (arith, h), ground (arith, h), ground (arith, h))

-- The pattern does not begin within itself.
pub patterns_apart :
    (tail : Bytes) (p q : ℕ)
    → has_prefix (drop p tail) ogg_capture_pattern ≡ true
    → has_prefix (drop q tail) ogg_capture_pattern ≡ true
    → p < q
    → p + 4 ≤ q
patterns_apart tail p q hp hq h =
    let bp = pattern_bytes (drop p tail) hp in
    let bq = pattern_bytes (drop q tail) hq in
    let q0 = get_or-drop q 0 tail 0 in
    let p1 = get_or-drop p 1 tail 0 in
    let p2 = get_or-drop p 2 tail 0 in
    let p3 = get_or-drop p 3 tail 0 in ground (arith, bp.1, bp.2, bp.3, bq.0)
