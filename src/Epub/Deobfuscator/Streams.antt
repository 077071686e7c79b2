-- ===== src/Epub/Deobfuscator/Streams.antt =====
-- pkg/parser/epub/deobfuscator.go: what Stream writes of a resource whose stream does not fail.
use go_toolkit.Prelude.{
  ℕ, suc, ◌+◌, ◌-◌, ◌≤◌, ◌<◌, ◌≡◌, ◌≢◌, refl, sym, ap, ◌∙◌, inl, inr, min, true, false, not, ◌&&◌,
  ◌||◌, none, ltb, leb, ◌==◌, Bytes, length, take, drop, length-take, take-all, take-append-drop,
  length-slice, arith, Bool-cases, le→leb,
}
use go_toolkit.Prelude.Panic.{done}
use go_toolkit.Fetcher.Resource.{range}
use go_toolkit.Epub.Deobfuscator.{
  Codecs, DeobfuscatingResource, Sent, algorithm_length, obfuscation_key, send, stream_portion,
  stream,
}
use go_toolkit.Epub.Deobfuscator.Revealed.{
  reveal, reveal_past, append-reveal, take-reveal, deobfuscate_font-reveal,
}
use go_toolkit.Epub.Deobfuscator.Reads.{revealed, range-reveal}

abbrev pub sent_all : Bytes → Sent
sent_all bs = record { written = bs; failure = none }

length-range :
    (content : Bytes) (start end : ℕ)
    → (end == 0) ≡ false
    → length (range content start end) ≤ suc end - start
length-range content start end e = elim (Bool-cases (start == 0 && end == 0)) [
  | inl whole ↦ absurd (ground (arith, whole, e))
  | inr part ↦ rw part (omega (arith, length-slice content start (suc end)))
]

module _ (codecs : Codecs) (d : DeobfuscatingResource) (start end : ℕ) where
  -- the pipe holds no more than the obfuscated portion
  sent_portion :
      (v : ℕ) (bs : Bytes)
      → 0 < length (obfuscation_key codecs d)
      → (ltb (min v (length bs)) v || (not (end == 0) && leb end (start + min v (length bs))))
        ≡ true
      → length bs ≤ v
      → send codecs d v start end (record { bytes = bs; failure = none }) (min v (length bs))
        ≡ done (sent_all (reveal (obfuscation_key codecs d) v start bs))
  unfolding send
  sent_portion v bs p at_end short =
      let some_key : (length (obfuscation_key codecs d) == 0) ≡ false = ground arith in
      rw
        (
          some_key,
          at_end,
          take-all (min v (length bs)) bs (omega arith),
          deobfuscate_font-reveal (obfuscation_key codecs d) v start bs p,
        )
        refl

  -- the pipe holds more than the obfuscated portion
  sent_beyond :
      (v : ℕ) (bs : Bytes)
      → 0 < length (obfuscation_key codecs d)
      → (ltb (min v (length bs)) v || (not (end == 0) && leb end (start + min v (length bs))))
        ≡ false
      → v ≤ length bs
      → send codecs d v start end (record { bytes = bs; failure = none }) (min v (length bs))
        ≡ done (sent_all (reveal (obfuscation_key codecs d) v start bs))
  unfolding send
  sent_beyond v bs p at_end long =
      let some_key : (length (obfuscation_key codecs d) == 0) ≡ false = ground arith in
      let key = obfuscation_key codecs d in
      let k = min v (length bs) in
      let joined =
        sym (append-reveal key v start (take k bs) (drop k bs) (omega (arith, length-take k bs)))
        ∙ ap (reveal key v start) (take-append-drop k bs) in
      rw (some_key, at_end, deobfuscate_font-reveal key v start (take k bs) p)
        (ap (λ w. done (sent_all w)) joined)

  -- `end` is not the one offset at which the bytes end right behind the portion
  sent :
      (v : ℕ) (bs : Bytes)
      → 0 < length (obfuscation_key codecs d)
      → ((end == 0) ≡ false → length bs ≤ suc end - start)
      → end ≢ start + v
      → send codecs d v start end (record { bytes = bs; failure = none }) (min v (length bs))
        ≡ done (sent_all (reveal (obfuscation_key codecs d) v start bs))
  sent v bs p bounded other =
      elim (Bool-cases
        (ltb (min v (length bs)) v || (not (end == 0) && leb end (start + min v (length bs))))) [
          | inl at_end ↦ sent_portion v bs p at_end (elim (Bool-cases (end == 0)) [
            | inl whole ↦ ground (arith, at_end, whole)
            | inr part ↦ ground (arith, at_end, bounded part, other, part)
          ])
          | inr further ↦ sent_beyond v bs p further (ground (arith, further))
        ]

  portion_sent :
      (v : ℕ) (bs : Bytes)
      → 0 < length (obfuscation_key codecs d)
      → 0 < length bs
      → 0 < v
      → ((end == 0) ≡ false → length bs ≤ suc end - start)
      → end ≢ start + v
      → stream_portion codecs d v start end (record { bytes = bs; failure = none })
        ≡ done (sent_all (reveal (obfuscation_key codecs d) v start bs))
  unfolding stream_portion
  portion_sent v bs p some_bytes pos bounded other =
      let taken : (min v (length bs) == 0) ≡ false = ground arith in
      elim (Bool-cases (leb v (length bs))) [
        | inl full ↦ rw full (sent v bs p bounded other)
        | inr short ↦ rw (short, taken) (sent v bs p bounded other)
      ]

-- Where the wrapped resource streams a range of a content that holds a byte, and the key is not empty,
-- Stream writes the range of the revealed content and reports no error, unless `end` is `start` plus
-- the obfuscated length.
pub stream-revealed :
    (codecs : Codecs) (d : DeobfuscatingResource) (content : Bytes) (start end : ℕ)
    → d.pipe start end ≡ record { bytes = range content start end; failure = none }
    → 0 < length (obfuscation_key codecs d)
    → 0 < length (range content start end)
    → end ≢ start + algorithm_length d.algorithm
    → stream codecs d start end
      ≡ done (record { written = range (revealed codecs d content) start end; failure = none })
unfolding stream revealed
stream-revealed codecs d content start end piped p some_bytes other =
    let v = algorithm_length d.algorithm in
    let key = obfuscation_key codecs d in
    let bs = range content start end in
    elim (Bool-cases (ltb 0 v && ltb start v)) [
      | inl hidden ↦
          rw (hidden, piped, range-reveal key v start end content)
            (portion_sent codecs d start end v bs p some_bytes (ground (arith, hidden))
              (length-range content start end) other)
      | inr plain ↦
          rw (plain, piped, range-reveal key v start end content)
            (ap (λ w. done (sent_all w)) (sym (reveal_past key v start bs (ground (arith, plain)))))
    ]

-- Where `end` is `start` plus the obfuscated length, `start` lies below that length, and the resource
-- streams all the bytes of the range and the key is not empty, Stream reports no error and writes the
-- revealed bytes of the range without the last one.
pub boundary_stream-short :
    (codecs : Codecs) (d : DeobfuscatingResource) (bs : Bytes) (start end : ℕ)
    → d.pipe start end ≡ record { bytes = bs; failure = none }
    → 0 < length (obfuscation_key codecs d)
    → start < algorithm_length d.algorithm
    → end ≡ start + algorithm_length d.algorithm
    → length bs ≡ suc end - start
    → stream codecs d start end
      ≡ done (record {
        written =
            take
              (length bs - 1)
              (reveal (obfuscation_key codecs d) (algorithm_length d.algorithm) start bs);
        failure = none;
      })
unfolding stream stream_portion send
boundary_stream-short codecs d bs start end piped p inside boundary full =
    let v = algorithm_length d.algorithm in
    let key = obfuscation_key codecs d in
    let hidden : (ltb 0 v && ltb start v) ≡ true = ground arith in
    let enough = le→leb v (length bs) (omega arith) in
    let some_key : (length key == 0) ≡ false = ground arith in
    let last : length bs - 1 ≡ v = omega arith in
    let on : min v (length bs) ≡ v = omega arith in
    let at_end : (ltb v v || (not (end == 0) && leb end (start + v))) ≡ true = ground arith in
    let portion = deobfuscate_font-reveal key v start (take v bs) p in
    rw (hidden, piped, enough, on, some_key, at_end, portion)
      (rw (last, take-reveal key v start v bs) refl)
