-- ===== src/Epub/Deobfuscator/Reads.antt =====
-- pkg/parser/epub/deobfuscator.go: Read gives ranges of the revealed content.
use go_toolkit.Prelude.{
  ℕ, zero, suc, ◌≤◌, ◌<◌, ◌≡◌, refl, sym, ap, ◌∙◌, inl, inr, true, ◌&&◌, ◌∷◌, ltb, ◌==◌, Bytes,
  length, arith, Bool-cases, ltb→le, lt→ltb, lt→leb,
}
use go_toolkit.Prelude.Panic.{done, panic, ◌>>=◌, Ends}
use go_toolkit.Fetcher.Resource.{Result, ok, err, range, Serves, Answers}
use go_toolkit.Epub.Deobfuscator.{
  Codecs, DeobfuscatingResource, algorithm_length, obfuscation_key, xor_bytes, deobfuscate_font,
  read,
}
use go_toolkit.Epub.Deobfuscator.Revealed.{
  reveal, reveal_past, slice-reveal, deobfuscate_font-reveal,
}

-- a range of the revealed content is the range, revealed
pub range-reveal :
    (key : Bytes) (n start end : ℕ) (bs : Bytes)
    → range (reveal key n 0 bs) start end ≡ reveal key n start (range bs start end)
range-reveal key n start end bs = elim (Bool-cases (start == 0 && end == 0)) [
  | inl whole ↦ let first : start ≡ 0 = ground (arith, whole) in rw (whole, first) refl
  | inr part ↦ rw part (slice-reveal key n start (suc end) bs)
]

-- the content that the resource stands for; an algorithm that is not known hides nothing
unfoldable pub revealed : Codecs → DeobfuscatingResource → Bytes → Bytes
revealed codecs d = reveal (obfuscation_key codecs d) (algorithm_length d.algorithm) 0

-- the second half of Read, on what the resource returned
answered :
    (codecs : Codecs) (d : DeobfuscatingResource) (content : Bytes) (start end : ℕ)
    → Serves content d.resource
    → 0 < length (obfuscation_key codecs d)
    → start ≤ end
    → (r : Result Bytes) → d.resource.read start end ≡ r
    → (x : Result Bytes) × (read codecs d start end ≡ done x)
      × Answers (revealed codecs d content) d.resource start end x
unfolding read revealed
answered codecs d content start end serves p se (err x) e = (
  err x,
  elim (Bool-cases (ltb 0 (algorithm_length d.algorithm))) [
    | inl known ↦ rw (known, e) refl
    | inr unknown ↦ rw (unknown, e) refl
  ],
  (start, end, e),
)
answered codecs d content start end serves p se (ok bs) e =
    let key = obfuscation_key codecs d in
    let n = algorithm_length d.algorithm in
    let served = serves start end bs se e in
    (
      ok (reveal key n start bs),
      elim (Bool-cases (ltb 0 n)) [
        | inl known ↦ rw (known, e, deobfuscate_font-reveal key n start bs p) refl
        | inr unknown ↦
            rw (unknown, e, reveal_past key n start bs (omega (arith, ltb→le 0 n unknown))) refl
      ],
      ap (reveal key n start) served ∙ sym (range-reveal key n start end content),
    )

-- Over a resource whose successful reads are ranges of a content, and with a key that is not empty,
-- Read of a range in order does not panic, and it returns the range of the revealed content or an
-- error with which a read of the resource failed.
pub deobfuscated_read-Answers :
    (codecs : Codecs) (d : DeobfuscatingResource) (content : Bytes) (start end : ℕ)
    → Serves content d.resource
    → 0 < length (obfuscation_key codecs d)
    → start ≤ end
    → Ends (Answers (revealed codecs d content) d.resource start end) (read codecs d start end)
deobfuscated_read-Answers codecs d content start end serves p se =
    let answer = answered codecs d content start end serves p se (d.resource.read start end) refl in
    rw answer.1 answer.2

xor_panics :
    (key : Bytes) (at k b : ℕ) (bs : Bytes)
    → length key ≡ 0
    → 0 < k
    → (xor_bytes key at k (b ∷ bs) >>= λ r. done (ok r)) ≡ panic
unfolding xor_bytes
xor_panics key at zero b bs no_key p = absurd (omega arith)
xor_panics key at (suc k) b bs no_key p =
    let none_left : (length key == 0) ≡ true = ground arith in rw none_left refl

-- With an empty key, which an identifier with no hexadecimal digit gives for Adobe's algorithm, Read
-- panics for every range that begins in the obfuscated portion and is served a byte.
pub empty_key_read-panics :
    (codecs : Codecs) (d : DeobfuscatingResource) (start end b : ℕ) (bs : Bytes)
    → length (obfuscation_key codecs d) ≡ 0
    → start < algorithm_length d.algorithm
    → d.resource.read start end ≡ ok (b ∷ bs)
    → read codecs d start end ≡ panic
unfolding read deobfuscate_font
empty_key_read-panics codecs d start end b bs no_key inside e =
    let v = algorithm_length d.algorithm in
    let known = lt→ltb 0 v (omega arith) in
    let hidden = lt→leb v start inside in
    rw (known, e, hidden) (xor_panics (obfuscation_key codecs d) start _ b bs no_key (omega arith))
