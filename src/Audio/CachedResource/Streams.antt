-- ===== src/Audio/CachedResource/Streams.antt =====
-- pkg/parser/audio/servecache.go: Stream of a cachedResource writes what Read would return.
use go_toolkit.Prelude.{
  ℕ, suc, ◌+◌, ◌-◌, ◌≤◌, ◌<◌, ◌≡◌, ap, sym, ◌∙◌, inl, inr, false, none, ◌++◌, append_assoc, ltb,
  ◌==◌, ltb→le, ltb→lt, Bytes, length, take, take-all, slice as sub_slice, slice-append,
  length-slice, length-append, arith, Bool-cases,
}
use go_toolkit.Prelude.Int.{pos, pos_part}
use go_toolkit.Fetcher.Resource.{range}
use go_toolkit.Audio.ReadCache.Reads.{range-clamped}
use go_toolkit.Audio.RetainedCache.{prefix}
use go_toolkit.Audio.RetainedCache.Slice.{IsValid, clamped}
use go_toolkit.Audio.RetainedCache.Prefix.{IsCachedRun, prefix-IsCachedRun}
use go_toolkit.Audio.CachedResource.{CachedResource, normalize, Streamed, Written, stream}
use go_toolkit.Audio.CachedResource.Reads.{IsNormal, normalize-IsNormal}

-- the documentation of io.Writer: Write takes a prefix of what it is given, and all of it unless it
-- returns an error; `output` is what a writer has been given
abbrev pub Writes : {W : Type 0} → (W → Bytes) → (W → Bytes → Written W) → Type 0
Writes {W} output write =
    (w : W) (p : Bytes)
    → (output (write w p).writer ≡ output w ++ take (write w p).taken p)
      × ((write w p).taken ≤ length p)
      × ((write w p).failed ≡ false → (write w p).taken ≡ length p)

-- a stream that ended without an error has written exactly `bs`
abbrev pub Delivers : {W : Type 0} → (W → Bytes) → W → Bytes → Streamed W → Type 0
Delivers output w bs s = (output s.writer ≡ output w ++ bs) × (s.count ≡ pos (length bs))

-- the documentation of Resource.Stream: without an error it has written the range
abbrev pub StreamsRange : {W : Type 0} → (W → Bytes) → Bytes → (W → ℕ → ℕ → Streamed W) → Type 0
StreamsRange {W} output content source =
    (w : W) (start end : ℕ)
    → start ≤ end
    → (source w start end).failure ≡ none
    → Delivers output w (range content start end) (source w start end)

module _ (content : Bytes) (r : CachedResource) (v : IsValid content r.cache) (start end : ℕ)
    (se : start ≤ end) (inside : start < pos_part r.cache.size) where
  abbrev last : ℕ
  last = (normalize r start end).end

  abbrev pre : Bytes
  pre = prefix r.cache start last

  normal : IsNormal content r start end (normalize r start end)
  normal = normalize-IsNormal content r start end v se (omega arith)

  cached_run : IsCachedRun content r.cache start (clamped r.cache last) pre
  cached_run = prefix-IsCachedRun content r.cache start last v normal.ordered inside

  length-pre : length pre ≡ cached_run.0 - start
  length-pre =
      ap length cached_run.1
      ∙ length-slice content start cached_run.0
      ∙ omega (arith, v.sized, cached_run.3)

  -- a prefix that reaches past the end of the range is the range
  pre-range : last < start + length pre → pre ≡ range content start end
  pre-range past =
      let full : cached_run.0 ≡ suc (clamped r.cache last) =
        omega (arith, length-pre, cached_run.2, cached_run.3) in
      cached_run.1 ∙ ap (sub_slice content start) full ∙ normal.same_range

  -- any other is the range with the rest of it
  pre-rest :
      start + length pre ≤ last
      → 0 < length pre
      → pre ++ range content (start + length pre) last ≡ range content start end
  pre-rest le some_bytes =
      let at : start + length pre ≡ cached_run.0 = omega (arith, length-pre, cached_run.2) in
      let tail : range content cached_run.0 last
          ≡ sub_slice content cached_run.0 (suc (clamped r.cache last)) =
        rw (v.sized (omega arith))
          (range-clamped content cached_run.0 last (omega arith) (omega (arith, v.sized))) in
      rw (at, tail)
        (ap (λ (xs : Bytes). xs ++ sub_slice content cached_run.0 (suc (clamped r.cache last)))
            cached_run.1
          ∙ slice-append content start cached_run.0 (suc (clamped r.cache last)) cached_run.2
              cached_run.3
          ∙ normal.same_range)

module _ {W : Type 0} (output : W → Bytes) (write : W → Bytes → Written W)
    (source : W → ℕ → ℕ → Streamed W) (content : Bytes) (r : CachedResource) (w : W)
    (start end : ℕ) where
  -- Over a valid cache of known size, with a writer that keeps the contract of io.Writer and a
  -- resource that keeps that of Stream: for a range in order that begins within the content, a
  -- stream that ends without an error has written the range, as Read returns it, and its count is
  -- the length of that.
  pub stream-Delivers :
      Writes output write
      → StreamsRange output content source
      → IsValid content r.cache
      → start ≤ end
      → start < pos_part r.cache.size
      → (stream write source r w start end).failure ≡ none
      → Delivers output w (range content start end) (stream write source r w start end)
  unfolding stream
  stream-Delivers writes streams v se inside =
      let n = normal content r v start end se inside in
      let p = pre content r v start end se inside in
      let l = last content r v start end se inside in
      rw (n.part, n.same_start)
        (elim (Bool-cases (length p == 0)) [
          | inl nothing ↦ rw nothing (streams w start end se)
          | inr some_bytes ↦ rw some_bytes (elim (Bool-cases (write w p).failed) [
            | inl failed ↦ rw failed (λ e. cc)
            | inr fine ↦
                let taken = (writes w p).2 fine in
                let written : output (write w p).writer ≡ output w ++ p =
                  (writes w p).0 ∙ rw (taken, take-all (length p) p (omega arith)) in
                rw (fine, taken)
                  (elim (Bool-cases (ltb l (start + length p))) [
                    | inl past ↦
                        let whole = pre-range content r v start end se inside (ltb→lt _ _ past) in
                        rw past (λ _. (
                          written ∙ ap (◌++◌ (output w)) whole,
                          ap (λ (xs : Bytes). pos (length xs)) whole,
                        ))
                    | inr rest ↦
                        let le = ltb→le _ _ rest in
                        let joined = pre-rest content r v start end se inside le (ground arith) in
                        let more = range content (start + length p) l in
                        rw rest (λ e.
                          let (out, count) = streams (write w p).writer (start + length p) l le e in
                          (
                            out
                                ∙ ap (λ (xs : Bytes). xs ++ more) written
                                ∙ append_assoc (output w) p more
                                ∙ ap (◌++◌ (output w)) joined,
                            rw count (ap pos (sym (length-append p more) ∙ ap length joined)),
                          ))
                  ])
          ])
        ])
