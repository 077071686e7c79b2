-- ===== src/Search/Match/Build.antt =====
-- pkg/search/match.go: the matches that findInResource builds on an extracted resource.
use go_toolkit.Prelude.{
  get_elem?, ℕ, suc, ◌+◌, ◌-◌, ◌≤◌, ◌<◌, ◌≡◌, refl, inl, inr, true, false, ◌&&◌, Option, none, some,
  List, [], ◌∷◌, ltb, leb, ◌==◌, if◌then◌else◌, length, slice, min, All, arith, Bool-cases, le→ltb,
  leb→lt, leb→le, ltb→lt, ltb,
}
use go_toolkit.Prelude.Panic.{
  done, ◌>>=◌, checked_slice, index, Ends, Ends-bind, index-Ends, index_before-StandsAt,
  index-StandsAt, StandsAt, checked_slice-done, checked_slice-Ends,
}
use go_toolkit.Search.Text.{Unicode}
use go_toolkit.Search.Corpus.{ResourceText}
use go_toolkit.Search.Corpus.Extracted.{IsValid}
use go_toolkit.Search.Match.{
  Match, scan, plain_offset_after, trim_context_edge, context_around, build_match, build_all,
  find_in_resource, default_context_runes,
}
use go_toolkit.Search.Match.Occurrence.{Occurs}
use go_toolkit.Search.Match.Scan.{IsScan, scan-IsScan}

-- A match of the resource: a range of its text that is not empty, with the text of that range, from
-- the offset of the rune that the first rune of an occurrence of the query comes from to the offset
-- behind the rune that the last one comes from.
pub record IsMatch (u : Unicode) (rt : ResourceText) (q : List ℕ) (x : Match) : Type 0 where
  pub named : x.resource_index ≡ rt.index
  pub ordered : x.start < x.end
  pub within : x.end ≤ length rt.plain
  pub highlighted : x.highlight ≡ slice rt.plain x.start x.end
  pub position : ℕ
  pub occurs : Occurs u rt.fold_runes q position
  pub first : ℕ
  pub first_source : get_elem? rt.src_idx position ≡ some first
  pub begins : get_elem? rt.plain_off first ≡ some x.start
  pub last : ℕ
  pub last_source : get_elem? rt.src_idx (position + length q - 1) ≡ some last
  pub stops : get_elem? rt.plain_off (suc last) ≡ some x.end

IsMatchOrNone : Unicode → ResourceText → List ℕ → Option Match → Type 0
IsMatchOrNone u rt q none = Unit
IsMatchOrNone u rt q (some x) = IsMatch u rt q x

module _ (rt : ResourceText) (v : IsValid rt) where
  abbrev InPlain : ℕ → Type 0
  InPlain o = o ≤ length rt.plain

  offset-Ends :
      (i : ℕ)
      → i ≤ length rt.norm_runes
      → Ends (StandsAt InPlain rt.plain_off i) (index rt.plain_off i)
  offset-Ends i h = index-StandsAt InPlain rt.plain_off i v.within (omega (arith, v.offsets))

  bounded-Ends : (i : ℕ) → i ≤ length rt.norm_runes → Ends InPlain (index rt.plain_off i)
  bounded-Ends i h = index-Ends InPlain rt.plain_off i v.within (omega (arith, v.offsets))

  plain_offset_after-Ends :
      (e : ℕ)
      → e ≤ length rt.norm_runes
      → Ends (StandsAt InPlain rt.plain_off e) (plain_offset_after rt e)
  unfolding plain_offset_after
  plain_offset_after-Ends e h = elim (Bool-cases (leb (length rt.norm_runes) e)) [
    | inl past ↦
        let at_end : length rt.plain_off - 1 ≡ e = ground (arith, past, v.offsets) in
        rw (past, at_end) (offset-Ends e h)
    | inr inside ↦ rw inside (offset-Ends e h)
  ]

  before-Ends :
      (from upto : ℕ)
      → InPlain upto
      → Ends
          (λ _. Unit {0})
          (if ltb from upto
            then (checked_slice rt.plain from upto >>= λ s. done (trim_context_edge s false))
            else done [])
  before-Ends from upto h = elim (Bool-cases (ltb from upto)) [
    | inl some_text ↦
        rw
          (some_text, checked_slice-done rt.plain from upto (omega (arith, ltb→lt _ _ some_text)) h)
          tt
    | inr no_text ↦ rw no_text tt
  ]

  after-Ends :
      (from upto : ℕ)
      → Ends
          (λ _. Unit {0})
          (if ltb from upto && leb from (length rt.plain) && leb upto (length rt.plain)
            then (checked_slice rt.plain from upto >>= λ s. done (trim_context_edge s true))
            else done [])
  after-Ends from upto = elim (Bool-cases (ltb from upto)) [
    | inr no_text ↦ rw no_text tt
    | inl some_text ↦ elim (Bool-cases (leb from (length rt.plain))) [
      | inr out ↦ rw (some_text, out) tt
      | inl starts ↦ elim (Bool-cases (leb upto (length rt.plain))) [
        | inr out ↦ rw (some_text, starts, out) tt
        | inl stops ↦
            rw
              (
                some_text,
                starts,
                stops,
                checked_slice-done rt.plain from upto (omega (arith, ltb→lt _ _ some_text))
                    (leb→le _ _ stops),
              )
              tt
      ]
    ]
  ]

  context_around-Ends :
      (si se c : ℕ) → si ≤ length rt.norm_runes → Ends (λ _. Unit {0}) (context_around rt si se c)
  unfolding context_around
  context_around-Ends si se c h =
      Ends-bind InPlain _ _ _ (bounded-Ends (si - c) (omega arith)) λ before_from hf.
        Ends-bind InPlain _ _ _ (bounded-Ends si h) λ before_end he.
          Ends-bind (λ _. Unit {0}) _ _ _ (before-Ends before_from before_end he)
            λ before _.
              Ends-bind InPlain _ _ _
                (bounded-Ends (min (se + c) (length rt.norm_runes)) (omega arith))
                λ after_to ht.
                  Ends-bind InPlain _ _ _
                    (bounded-Ends (min se (length rt.norm_runes)) (omega arith))
                    λ after_from hg.
                      Ends-bind (λ _. Unit {0}) _ _ _ (after-Ends after_from after_to) λ after _. tt

  abbrev Named : ℕ → Type 0
  Named i = i < length rt.norm_runes

  module _ (u : Unicode) (q : List ℕ) where
    build_match-Ends :
        (i : ℕ)
        → 0 < length q
        → Occurs u rt.fold_runes q i
        → Ends (IsMatchOrNone u rt q) (build_match rt i (i + length q))
    unfolding build_match IsMatchOrNone
    build_match-Ends i p o =
        let inside = o.within in
        Ends-bind (StandsAt Named rt.src_idx i) (IsMatchOrNone u rt q) _ _
          (index-StandsAt Named rt.src_idx i v.named (omega (arith, v.sources)))
          λ si hs.
            Ends-bind (StandsAt Named rt.src_idx (i + length q - 1)) (IsMatchOrNone u rt q) _ _
              (index_before-StandsAt Named rt.src_idx (i + length q) v.named (omega arith)
                (omega (arith, v.sources)))
              λ last hl.
                Ends-bind (StandsAt InPlain rt.plain_off si) (IsMatchOrNone u rt q) _ _
                  (offset-Ends si (omega (arith, hs.0)))
                  λ start hb.
                    Ends-bind (StandsAt InPlain rt.plain_off (suc last)) (IsMatchOrNone u rt q) _ _
                      (plain_offset_after-Ends (suc last) (omega (arith, hl.0)))
                      λ end he. elim (Bool-cases (leb end start)) [
                        | inl empty ↦ rw empty tt
                        | inr found ↦
                            rw (found, le→ltb (length rt.plain) end he.0)
                              (Ends-bind (λ _. Unit {0}) (IsMatchOrNone u rt q) _ _
                                (context_around-Ends si (suc last) default_context_runes
                                  (omega (arith, hs.0)))
                                λ context _.
                                  Ends-bind (λ s. s ≡ slice rt.plain start end)
                                    (IsMatchOrNone u rt q) _ _
                                    (checked_slice-Ends rt.plain start end
                                      (omega (arith, leb→lt _ _ found)) he.0)
                                    λ highlight hh. record {
                                      named = refl;
                                      ordered = omega (arith, leb→lt _ _ found);
                                      within = he.0;
                                      highlighted = hh;
                                      position = i;
                                      occurs = o;
                                      first = si;
                                      first_source = hs.1;
                                      begins = hb.1;
                                      last = last;
                                      last_source = hl.1;
                                      stops = he.1;
                                    })
                      ]

    joined :
        (built : Option Match) (rest : List Match)
        → IsMatchOrNone u rt q built
        → All (IsMatch u rt q) rest
        → All (IsMatch u rt q) (elim built [ some x ↦ x ∷ rest | none ↦ rest ])
    unfolding IsMatchOrNone
    joined none rest hb hr = hr
    joined (some x) rest hb hr = (hb, hr)

    build_all-Ends :
        (is : List ℕ)
        → 0 < length q
        → All (Occurs u rt.fold_runes q) is
        → Ends (All (IsMatch u rt q)) (build_all rt (length q) is)
    unfolding build_all IsMatchOrNone
    build_all-Ends [] p os = tt
    build_all-Ends (i ∷ is) p (o, os) =
        Ends-bind (IsMatchOrNone u rt q) _ _ _ (build_match-Ends i p o) λ built hb.
          Ends-bind (All (IsMatch u rt q)) _ _ _ (build_all-Ends is p os)
            λ rest hr. joined built rest hb hr

-- On a valid resource findInResource never panics, neither in the scan of the folded text nor in building
-- a match, and its loops end. Each match that it reports comes from an occurrence of the query, where
-- no word runs into it or out of it: it is the range of the plain text from the offset of the rune that
-- the first folded rune comes from to the offset behind the one that the last comes from; it is not
-- empty, lies within the text, and carries the text of that range.
pub find_in_resource-IsMatch :
    (u : Unicode) (rt : ResourceText) (q : List ℕ)
    → IsValid rt
    → Ends (All (IsMatch u rt q)) (find_in_resource u rt q)
unfolding find_in_resource
find_in_resource-IsMatch u rt q v = elim (Bool-cases (length q == 0)) [
  | inl empty ↦ rw empty tt
  | inr some_query ↦ elim (Bool-cases (ltb (length rt.fold_runes) (length q))) [
    | inl short ↦ rw (some_query, short) tt
    | inr long ↦
        let some_runes : 0 < length q = ground arith in
        rw (some_query, long)
          (Ends-bind (IsScan u rt.fold_runes q 0) (All (IsMatch u rt q)) (scan u rt.fold_runes q) _
            (scan-IsScan u rt.fold_runes q some_runes)
            (λ is found. build_all-Ends rt v u q is some_runes found.sound))
  ]
]
