-- ===== src/Search/Corpus/Segments.antt =====
-- pkg/search/corpus.go: the offsets that emitSegment assigns lie in the segment and do not decrease,
-- also where the normal form has another length than the segment.
use go_toolkit.Prelude.{
  ℕ, suc, ◌+◌, ◌*◌, ◌/◌, ◌≤◌, ◌<◌, ◌≡◌, refl, inl, inr, List, [], ◌∷◌, ◌==◌, if◌then◌else◌, Bytes,
  length, All, arith, Bool-cases,
}
use go_toolkit.Search.Text.{Rune, Unicode, fold_rune}
use go_toolkit.Search.Corpus.{
  Extract, push_rune, approximate_source_offset, emit_runes, emit_segment,
}
use go_toolkit.Search.Corpus.Valid.{IsConsistent, IsConsistent-weaken, push_rune-IsConsistent}

abbrev pub total_size : List Rune → ℕ
total_size [] = 0
total_size (r ∷ rs) = r.size + total_size rs

-- the documentation of utf8.DecodeRune: each rune takes at least one byte, and together they take
-- all of them
pub record IsDecoding (u : Unicode) : Type 0 where
  pub sizes : (s : Bytes) → total_size (u.runes s) ≡ length s
  pub positive : (s : Bytes) → All (λ r. 0 < r.size) (u.runes s)

share_lt : (k l t : ℕ) → k < t → 0 < l → k * l / t < l
share_lt k l t h p = grind arith

share_mono : (k j l t : ℕ) → k ≤ j → 0 < t → k * l / t ≤ j * l / t
share_mono k j l t h p = grind arith

module _ (u : Unicode) (seg nfc : Bytes) where
  approximate_source_offset_lt :
      (bi k : ℕ)
      → 0 < length seg
      → bi < length nfc
      → k < length (u.runes nfc)
      → approximate_source_offset u seg nfc bi k < length seg
  unfolding approximate_source_offset
  approximate_source_offset_lt bi k p hb hk =
      ground (arith, share_lt k (length seg) (length (u.runes nfc)) hk p)

  approximate_source_offset_mono :
      (bi bj k j : ℕ)
      → bi ≤ bj
      → k ≤ j
      → approximate_source_offset u seg nfc bi k ≤ approximate_source_offset u seg nfc bj j
  unfolding approximate_source_offset
  approximate_source_offset_mono bi bj k j hb hk =
      ground (arith, share_mono k j (length seg) (length (u.runes nfc)) hk)

  module _ (base : ℕ) (p : 0 < length seg) where
    emit_runes-IsConsistent :
        (b bi k : ℕ) (rs : List Rune) (st : Extract)
        → bi + total_size rs ≡ length nfc
        → k + length rs ≡ length (u.runes nfc)
        → All (λ r. 0 < r.size) rs
        → b ≤ suc (base + approximate_source_offset u seg nfc bi k)
        → b ≤ base + length seg
        → IsConsistent b st
        → IsConsistent (base + length seg) (emit_runes u seg nfc base bi k rs st)
    unfolding emit_runes
    emit_runes-IsConsistent b bi k [] st hb hk ps le lim v = IsConsistent-weaken st lim v
    emit_runes-IsConsistent b bi k (r ∷ rs) st hb hk (pr, ps) le lim v =
        let advance : (if r.size == 0 then 1 else r.size) ≡ r.size = ground arith in
        let poff = base + approximate_source_offset u seg nfc bi k in
        let inside = approximate_source_offset_lt bi k p (omega arith) (omega arith) in
        let next =
          approximate_source_offset_mono bi (bi + r.size) k (suc k) (omega arith) (omega arith) in
        rw advance (
          emit_runes-IsConsistent (suc poff) (bi + r.size) (suc k) rs _ (omega arith) (omega arith)
            ps (omega arith) (omega arith)
            (push_rune-IsConsistent b (suc poff) r.value (fold_rune u r.value) poff st le
              (omega arith) v))

  plain-emit_runes :
      (base bi k : ℕ) (rs : List Rune) (st : Extract)
      → (emit_runes u seg nfc base bi k rs st).plain ≡ st.plain
  unfolding emit_runes push_rune
  plain-emit_runes base bi k [] st = refl
  plain-emit_runes base bi k (r ∷ rs) st =
      plain-emit_runes base (bi + (if r.size == 0 then 1 else r.size)) (suc k) rs _

pub plain-emit_segment :
    (u : Unicode) (seg : Bytes) (base : ℕ) (st : Extract)
    → (emit_segment u seg base st).plain ≡ st.plain
unfolding emit_segment
plain-emit_segment u seg base st = elim (Bool-cases (length seg == 0)) [
  | inl empty ↦ rw empty
  | inr some_bytes ↦ rw some_bytes (plain-emit_runes u seg _ base 0 0 _ st)
]

pub emit_segment-IsConsistent :
    (u : Unicode) (d : IsDecoding u) (seg : Bytes) (base : ℕ) (st : Extract)
    → IsConsistent base st
    → IsConsistent (base + length seg) (emit_segment u seg base st)
unfolding emit_segment
emit_segment-IsConsistent u d seg base st v = elim (Bool-cases (length seg == 0)) [
  | inl empty ↦ rw empty (IsConsistent-weaken st (omega arith) v)
  | inr some_bytes ↦
      let nfc = if u.is_normal seg then seg else u.nfc seg in
      let emitted =
        emit_runes-IsConsistent u seg nfc base (ground arith) base 0 0 (u.runes nfc) st
          (omega (arith, d.sizes nfc)) (omega arith) (d.positive nfc) (omega arith) (omega arith)
          v in
      rw some_bytes (record {
        offsets = emitted.offsets;
        sources = emitted.sources;
        named = emitted.named;
        sorted = emitted.sorted;
        below = emitted.below;
      })
]
