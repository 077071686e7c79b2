-- ===== src/Search/Corpus/Extracted.antt =====
-- pkg/search/corpus.go: a resource that is extracted, and one that an unclosed element hides.
use mathlib.Core.Path.{subst}
use Prim.Native.String.{String}
use go_toolkit.Prelude.{
  ℕ, suc, ◌≤◌, ◌<◌, ◌≡◌, refl, sym, ap, ◌∙◌, inl, inr, true, false, ◌||◌, none, some, List, [], ◌∷◌,
  ltb, ◌==◌, Bytes, length, length-append, All, All-map, All-append, arith, Bool-cases,
}
use go_toolkit.Search.Text.{Unicode}
use go_toolkit.Search.Corpus.{
  Extract, Token, text_token, start_tag_token, self_closing_tag_token, end_tag_token, other_token,
  ResourceText, on_tokens, on_token, on_text, on_start, on_end, start, close, finish,
  extract_resource, excluded_elements, block_elements, write_boundary, ensure_boundary,
}
use go_toolkit.Search.Corpus.Segments.{IsDecoding}
use go_toolkit.Search.Corpus.Valid.{IsSorted, IsSorted-concat}
use go_toolkit.Search.Corpus.Extraction.{IsWellFormed, on_tokens-IsWellFormed}

start-IsWellFormed : IsWellFormed start
start-IsWellFormed = record { offsets = refl; sources = refl; named = tt; sorted = tt; below = tt }

-- An extracted resource: its offsets are one more than its runes, do not decrease and end with the
-- length of the text; each folded rune has a source, and that is a rune.
pub record IsValid (rt : ResourceText) : Type 0 where
  pub offsets : length rt.plain_off ≡ suc (length rt.norm_runes)
  pub sources : length rt.src_idx ≡ length rt.fold_runes
  pub named : All (λ i. i < length rt.norm_runes) rt.src_idx
  pub sorted : IsSorted rt.plain_off
  pub within : All (λ o. o ≤ length rt.plain) rt.plain_off

close-IsValid : (index : ℕ) (st : Extract) → IsWellFormed st → IsValid (close index st)
unfolding close
close-IsValid index st v =
    let weak =
      All-map (λ o. o < length st.plain) (λ o. o ≤ length st.plain) st.plain_off
        (λ o p. omega arith) v.below in
    record {
      offsets = omega (arith, v.offsets, length-append st.plain_off (length st.plain ∷ []));
      sources = v.sources;
      named = v.named;
      sorted = IsSorted-concat st.plain_off (length st.plain) v.sorted weak;
      within =
          All-append (λ o. o ≤ length st.plain) st.plain_off (length st.plain ∷ []) weak
            (omega arith, tt);
    }

-- What extractResource returns is valid, for every token stream and whatever the normal form does,
-- if decoding gives runes of positive sizes that add up to the length of the text.
pub extract_resource-IsValid :
    (u : Unicode) (index : ℕ) (tokens : List Token) (rt : ResourceText)
    → IsDecoding u
    → extract_resource u index tokens ≡ some rt
    → IsValid rt
unfolding extract_resource finish
extract_resource-IsValid u index tokens rt d e =
    let st = on_tokens u tokens start in
    let v = close-IsValid index st (on_tokens-IsWellFormed u d tokens start start-IsWellFormed) in
    elim (Bool-cases (length st.norm_runes == 0)) [
      | inl empty ↦ absurd (ground arith)
      | inr found ↦ let same : close index st ≡ rt = ground arith in subst IsValid same v
    ]

ensure_boundary-empty : (st : Extract) → length st.plain ≡ 0 → ensure_boundary st ≡ st
unfolding ensure_boundary write_boundary
ensure_boundary-empty st h = ground arith

-- no token closes an excluded element
abbrev pub NoExcludedEnd : List Token → Type 0
NoExcludedEnd [] = Unit {0}
NoExcludedEnd (end_tag_token name ∷ ts) = (excluded_elements name ≡ false) × NoExcludedEnd ts
NoExcludedEnd (text_token _ ∷ ts) = NoExcludedEnd ts
NoExcludedEnd (start_tag_token _ ∷ ts) = NoExcludedEnd ts
NoExcludedEnd (self_closing_tag_token _ ∷ ts) = NoExcludedEnd ts
NoExcludedEnd (other_token ∷ ts) = NoExcludedEnd ts

-- nothing has been extracted, and an excluded element is open
abbrev Hidden : Extract → Type 0
Hidden st = (length st.plain ≡ 0) × (length st.norm_runes ≡ 0) × (0 < st.excluded)

module _ (u : Unicode) where
  on_start-Hidden : (name : String) (st : Extract) → Hidden st → Hidden (on_start u name st)
  unfolding on_start
  on_start-Hidden name st (p, n, e) = elim (Bool-cases (excluded_elements name)) [
    | inl out ↦ rw out (p, n, omega arith)
    | inr kept ↦ elim (Bool-cases (block_elements name)) [
      | inl block ↦ rw (kept, block) (subst Hidden (sym (ensure_boundary-empty st p)) (p, n, e))
      | inr inline ↦ rw (kept, inline) (p, n, e)
    ]
  ]

  on_end-Hidden :
      (name : String) (st : Extract)
      → excluded_elements name ≡ false
      → Hidden st
      → Hidden (on_end u name st)
  unfolding on_end
  on_end-Hidden name st kept (p, n, e) = elim (Bool-cases (block_elements name)) [
    | inl block ↦ rw (kept, block) (subst Hidden (sym (ensure_boundary-empty st p)) (p, n, e))
    | inr inline ↦ rw (kept, inline) (p, n, e)
  ]

  on_text-Hidden : (text : Bytes) (st : Extract) → Hidden st → Hidden (on_text u text st)
  unfolding on_text
  on_text-Hidden text st (p, n, e) =
      let skipped : (ltb 0 st.excluded || length text == 0) ≡ true = ground arith in
      rw skipped (p, n, e)

  on_tokens-Hidden :
      (ts : List Token) (st : Extract) → NoExcludedEnd ts → Hidden st → Hidden (on_tokens u ts st)
  unfolding on_tokens on_token
  on_tokens-Hidden [] st c h = h
  on_tokens-Hidden (text_token text ∷ ts) st c h =
      on_tokens-Hidden ts _ c (on_text-Hidden text st h)
  on_tokens-Hidden (start_tag_token name ∷ ts) st c h =
      on_tokens-Hidden ts _ c (on_start-Hidden name st h)
  on_tokens-Hidden (self_closing_tag_token name ∷ ts) st c h =
      on_tokens-Hidden ts _ c (on_start-Hidden name st h)
  on_tokens-Hidden (end_tag_token name ∷ ts) st (c, cs) h =
      on_tokens-Hidden ts _ cs (on_end-Hidden name st c h)
  on_tokens-Hidden (other_token ∷ ts) st c h = on_tokens-Hidden ts st c h

finish-Hidden : (index : ℕ) (st : Extract) → Hidden st → finish index st ≡ none
unfolding finish
finish-Hidden index st (p, n, e) = ground arith

on_start-excluded :
    (u : Unicode) (name : String) (st : Extract)
    → excluded_elements name ≡ true
    → on_start u name st ≡ record st { excluded = suc st.excluded }
unfolding on_start
on_start-excluded u name st out = rw out refl

-- If a self-closing tag of an excluded element stands first, and no end tag of an excluded element
-- follows, the resource is skipped, whatever its text.
pub self_closing_hides_resource :
    (u : Unicode) (index : ℕ) (name : String) (ts : List Token)
    → excluded_elements name ≡ true
    → NoExcludedEnd ts
    → extract_resource u index (self_closing_tag_token name ∷ ts) ≡ none
unfolding extract_resource on_tokens on_token
self_closing_hides_resource u index name ts out closed =
    let opened : Extract = record start { excluded = 1 } in
    let hidden = on_tokens-Hidden u ts opened closed (refl, refl, omega arith) in
    ap (λ st. finish index (on_tokens u ts st)) (on_start-excluded u name start out)
    ∙ finish-Hidden index (on_tokens u ts opened) hidden
