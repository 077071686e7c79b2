-- ===== src/Search/Corpus/Extraction.antt =====
-- pkg/search/corpus.go: every step keeps the coordinate systems consistent, whatever the tokens.
use go_toolkit.Prelude.{
  ℕ, zero, suc, ◌+◌, ◌-◌, ◌≤◌, ◌<◌, ◌≡◌, sym, ap, inl, inr, Bool, true, false, not, ◌&&◌, ◌||◌,
  List, [], ◌∷◌, ◌++◌, ltb, ◌==◌, if◌then◌else◌, Bytes, length, length-append, take, drop,
  length-take, length-drop, arith, Bool-cases,
}
use mathlib.Core.Path.{subst}
use Prim.Native.String.{String}
use go_toolkit.Search.Text.{Unicode}
use go_toolkit.Search.Corpus.{
  Extract, Token, text_token, start_tag_token, self_closing_tag_token, end_tag_token, other_token,
  ends_with_space, push_rune, add_separator, write_boundary, ensure_boundary, emit_segment,
  space_run, split_round, split_text, on_text, on_start, on_end, on_token, on_tokens,
  excluded_elements, block_elements,
}
use go_toolkit.Search.Corpus.Segments.{IsDecoding, plain-emit_segment, emit_segment-IsConsistent}
use go_toolkit.Search.Corpus.Valid.{IsConsistent, IsConsistent-weaken, push_rune-IsConsistent}

-- between tokens every offset lies in the text so far
abbrev pub IsWellFormed : Extract → Type 0
IsWellFormed st = IsConsistent (length st.plain) st

add_separator-IsConsistent :
    (b c poff : ℕ) (st : Extract)
    → b ≤ suc poff
    → poff < c
    → IsConsistent b st
    → IsConsistent c (add_separator poff st)
unfolding add_separator
add_separator-IsConsistent b c poff st h k v = elim (Bool-cases (ends_with_space st.norm_runes)) [
  | inl spaced ↦ rw spaced (IsConsistent-weaken st (omega arith) v)
  | inr open_end ↦ rw open_end (push_rune-IsConsistent b c b' ' (b' ' ∷ []) poff st h k v)
]

plain-add_separator : (poff : ℕ) (st : Extract) → (add_separator poff st).plain ≡ st.plain
unfolding add_separator push_rune
plain-add_separator poff st = ground arith

write_boundary-IsWellFormed : (st : Extract) → IsWellFormed st → IsWellFormed (write_boundary st)
unfolding write_boundary
write_boundary-IsWellFormed st v = elim (Bool-cases (ltb 0 (length st.plain) && not st.last_nl)) [
  | inl written ↦ rw written (
      IsConsistent-weaken (record st { plain = st.plain ++ 10 ∷ []; last_nl = true })
        (omega (arith, length-append st.plain (10 ∷ [])))
        (record {
          offsets = v.offsets;
          sources = v.sources;
          named = v.named;
          sorted = v.sorted;
          below = v.below;
        }))
  | inr as_is ↦ rw as_is v
]

ensure_boundary-IsWellFormed : (st : Extract) → IsWellFormed st → IsWellFormed (ensure_boundary st)
unfolding ensure_boundary
ensure_boundary-IsWellFormed st v =
    let st' = write_boundary st in
    let v' = write_boundary-IsWellFormed st v in
    elim (Bool-cases (ltb 0 (length st'.plain))) [
      | inl some_text ↦ rw some_text (
          subst (λ n. IsConsistent n (add_separator (length st'.plain - 1) st'))
            (ap length (sym (plain-add_separator (length st'.plain - 1) st')))
            (add_separator-IsConsistent (length st'.plain) (length st'.plain) (length st'.plain - 1)
              st' (omega arith) (ground arith) v'))
      | inr empty ↦ rw empty v'
    ]

module _ (u : Unicode) where
  space_run-le : (wanted : Bool) (s : Bytes) → space_run u wanted s ≤ length s
  unfolding space_run
  space_run-le true [] = omega arith
  space_run-le false [] = omega arith
  space_run-le true (b ∷ s) = ground (arith, space_run-le true s)
  space_run-le false (b ∷ s) = ground (arith, space_run-le false s)

  -- a round takes a byte
  space_run_progress :
      (s : Bytes)
      → 0 < length s
      → 0 < space_run u false s + space_run u true (drop (space_run u false s) s)
  unfolding space_run
  space_run_progress [] h = absurd (omega arith)
  space_run_progress (b ∷ s) h = ground arith

  plain-split_round :
      (j k : ℕ) (rest : Bytes) (at : ℕ) (st : Extract)
      → (split_round u j k rest at st).plain ≡ st.plain
  unfolding split_round
  plain-split_round j k rest at st =
      let segment = plain-emit_segment u (take j rest) at st in
      let separated = plain-add_separator (at + j) in
      ground (arith, segment, separated (emit_segment u (take j rest) at st), separated st)

  module _ (d : IsDecoding u) where
    segment-IsConsistent :
        (j : ℕ) (rest : Bytes) (at : ℕ) (st : Extract)
        → j ≤ length rest
        → IsConsistent at st
        → IsConsistent (at + j) (if ltb 0 j then emit_segment u (take j rest) at st else st)
    segment-IsConsistent j rest at st fits v = elim (Bool-cases (ltb 0 j)) [
      | inl some_bytes ↦
          let len : length (take j rest) ≡ j = omega (arith, length-take j rest) in
          rw some_bytes (
            subst (λ n. IsConsistent (at + n) (emit_segment u (take j rest) at st)) len
              (emit_segment-IsConsistent u d (take j rest) at st v))
      | inr none_left ↦ rw none_left (IsConsistent-weaken st (omega arith) v)
    ]

    split_round-IsConsistent :
        (j k : ℕ) (rest : Bytes) (at : ℕ) (st : Extract)
        → 0 < j + k
        → j + k ≤ length rest
        → IsConsistent at st
        → IsConsistent (at + j + k) (split_round u j k rest at st)
    unfolding split_round
    split_round-IsConsistent j k rest at st some_bytes fits v =
        let st' = if ltb 0 j then emit_segment u (take j rest) at st else st in
        let v' = segment-IsConsistent j rest at st (omega arith) v in
        elim (Bool-cases (ltb 0 k && ltb 0 (length st'.plain))) [
          | inl spaced ↦
              let some_spaces : 0 < k = ground arith in
              rw spaced (
                add_separator-IsConsistent (at + j) (at + j + k) (at + j) st' (omega arith)
                  (omega arith) v')
          | inr joined ↦ rw joined (IsConsistent-weaken st' (omega arith) v')
        ]

    split_text-IsWellFormed :
        (f : ℕ) (rest : Bytes) (at : ℕ) (st : Extract)
        → length rest ≤ f
        → at + length rest ≡ length st.plain
        → IsConsistent at st
        → IsWellFormed (split_text u f rest at st)
    unfolding split_text
    split_text-IsWellFormed zero rest at st enough ends v = IsConsistent-weaken st (omega arith) v
    split_text-IsWellFormed (suc f) rest at st enough ends v =
        elim (Bool-cases (length rest == 0)) [
          | inl over ↦ rw over (IsConsistent-weaken st (omega arith) v)
          | inr within ↦
              let j = space_run u false rest in
              let k = space_run u true (drop j rest) in
              let fits = space_run-le false rest in
              let fits' = space_run-le true (drop j rest) in
              let left = length-drop j rest in
              let left' = length-drop (j + k) rest in
              let progress = space_run_progress rest (ground arith) in
              rw within (
                split_text-IsWellFormed f (drop (j + k) rest) (at + j + k) _ (omega arith)
                  (omega (arith, ap length (plain-split_round j k rest at st)))
                  (split_round-IsConsistent j k rest at st progress (omega arith) v))
        ]

    on_text-IsWellFormed :
        (text : Bytes) (st : Extract) → IsWellFormed st → IsWellFormed (on_text u text st)
    unfolding on_text
    on_text-IsWellFormed text st v = elim (Bool-cases (ltb 0 st.excluded || length text == 0)) [
      | inl skipped ↦ rw skipped v
      | inr taken ↦ rw taken (
          split_text-IsWellFormed (length text) text (length st.plain)
            (record st { plain = st.plain ++ text }) (omega arith)
            (sym (length-append st.plain text))
            (record {
              offsets = v.offsets;
              sources = v.sources;
              named = v.named;
              sorted = v.sorted;
              below = v.below;
            }))
    ]

    IsWellFormed-excluded :
        (n : ℕ) (st : Extract) → IsWellFormed st → IsWellFormed (record st { excluded = n })
    IsWellFormed-excluded n st v = record {
      offsets = v.offsets;
      sources = v.sources;
      named = v.named;
      sorted = v.sorted;
      below = v.below;
    }

    on_start-IsWellFormed :
        (name : String) (st : Extract) → IsWellFormed st → IsWellFormed (on_start u name st)
    unfolding on_start
    on_start-IsWellFormed name st v = elim (Bool-cases (excluded_elements name)) [
      | inl out ↦ rw out (IsWellFormed-excluded (suc st.excluded) st v)
      | inr kept ↦ elim (Bool-cases (block_elements name)) [
        | inl block ↦ rw (kept, block) (ensure_boundary-IsWellFormed st v)
        | inr inline ↦ rw (kept, inline) v
      ]
    ]

    on_end-IsWellFormed :
        (name : String) (st : Extract) → IsWellFormed st → IsWellFormed (on_end u name st)
    unfolding on_end
    on_end-IsWellFormed name st v =
        elim (Bool-cases (excluded_elements name && ltb 0 st.excluded)) [
          | inl out ↦ rw out (IsWellFormed-excluded (st.excluded - 1) st v)
          | inr kept ↦ elim (Bool-cases (block_elements name)) [
            | inl block ↦ rw (kept, block) (ensure_boundary-IsWellFormed st v)
            | inr inline ↦ rw (kept, inline) v
          ]
        ]

    pub on_tokens-IsWellFormed :
        (tokens : List Token) (st : Extract)
        → IsWellFormed st
        → IsWellFormed (on_tokens u tokens st)
    unfolding on_tokens on_token
    on_tokens-IsWellFormed [] st v = v
    on_tokens-IsWellFormed (text_token text ∷ ts) st v =
        on_tokens-IsWellFormed ts _ (on_text-IsWellFormed text st v)
    on_tokens-IsWellFormed (start_tag_token name ∷ ts) st v =
        on_tokens-IsWellFormed ts _ (on_start-IsWellFormed name st v)
    on_tokens-IsWellFormed (self_closing_tag_token name ∷ ts) st v =
        on_tokens-IsWellFormed ts _ (on_start-IsWellFormed name st v)
    on_tokens-IsWellFormed (end_tag_token name ∷ ts) st v =
        on_tokens-IsWellFormed ts _ (on_end-IsWellFormed name st v)
    on_tokens-IsWellFormed (other_token ∷ ts) st v = on_tokens-IsWellFormed ts st v
