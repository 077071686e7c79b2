-- ===== src/Extensions/Escape/RoundTrip.antt =====
-- pkg/internal/extensions/escape.go and string.go: unescape undoes escape.
use go_toolkit.Prelude.{
  ℕ, ◌/◌, ◌%◌, ◌<◌, ◌≡◌, ◌≢◌, inl, inr, refl, ap, ◌∙◌, true, false, ◌&&◌, [], ◌∷◌, ◌++◌, ◌==◌,
  Bytes, arith, Bool-cases, get_or, All, test_below, below_elim,
}
use go_toolkit.Extensions.Escape.{
  Encoding, encode_custom, is_query, is_hex, unhex, upperhex, hex_value, should_escape, ok, Found,
  escape_byte, escape_loop, escape, check, decode_byte, decode, unescape, remove_percent_encoding,
  add_percent_encoding_path,
}
use go_toolkit.Extensions.Escape.Safe.{escape-escape_loop}
use go_toolkit.Extensions.Escape.Decode.{
  check-plain, decode-plain, unescape-found, IsGeneral, check_byte-ok, check-percent,
}

digit_table :
    test_below 16 (λ d. is_hex (get_or upperhex d 0) && unhex (get_or upperhex d 0) == d) ≡ true
unfolding test_below is_hex unhex
digit_table = refl

digit_lem :
    (d : ℕ) → d < 16 → (is_hex (get_or upperhex d 0) ≡ true) × (unhex (get_or upperhex d 0) ≡ d)
digit_lem d h = ground (
  arith,
  below_elim 16 (λ k. is_hex (get_or upperhex k 0) && unhex (get_or upperhex k 0) == k) d
      digit_table h,
)

-- the two digits of a byte spell it
hex_value-digits :
    (c : ℕ) → c < 256 → hex_value (get_or upperhex (c / 16) 0) (get_or upperhex (c % 16) 0) ≡ c
hex_value-digits c h =
    omega (arith, (digit_lem (c / 16) (omega arith)).1, (digit_lem (c % 16) (omega arith)).1)

-- a byte that the query mode does not confuse: "+" stands for a space there
abbrev pub IsEncodable : Encoding → ℕ → Type 0
IsEncodable mode c = (c < 256) × ((is_query mode ≡ true) → c ≢ b'+')

module _ (mode : Encoding) (general : IsGeneral mode) where
  read-plain :
      (c d : ℕ) (s : Bytes) (f : Found)
      → c ≢ b'%'
      → decode_byte mode c ≡ d
      → check mode s ≡ ok f
      → ((g : Found) × (check mode (c ∷ s) ≡ ok g)) × (decode mode (c ∷ s) ≡ d ∷ decode mode s)
  read-plain c d s f ne e found =
      let (g, passed) = check_byte-ok mode general c f in
      ((g, rw (check-plain mode c s ne, found) passed), rw (decode-plain mode c s ne, e))

  decode-percent :
      (a b : ℕ) (s : Bytes) → decode mode (b'%' ∷ a ∷ b ∷ s) ≡ hex_value a b ∷ decode mode s
  unfolding decode
  decode-percent a b s = refl

  read-escape_byte :
      (c : ℕ) (s : Bytes) (f : Found)
      → IsEncodable mode c
      → check mode s ≡ ok f
      → ((g : Found) × (check mode (escape_byte mode c ++ s) ≡ ok g))
        × (decode mode (escape_byte mode c ++ s) ≡ c ∷ decode mode s)
  unfolding escape_byte
  read-escape_byte c s f (h, plus) found = elim (Bool-cases (c == b' ' && is_query mode)) [
    | inl space ↦
        rw space (read-plain b'+' c s f (omega arith) (unfold decode_byte in ground arith) found)
    | inr other ↦ elim (Bool-cases (should_escape c mode)) [
      | inl unsafe ↦
          let high = digit_lem (c / 16) (omega arith) in
          let low = digit_lem (c % 16) (omega arith) in
          let hex : (is_hex (get_or upperhex (c / 16) 0) && is_hex (get_or upperhex (c % 16) 0))
              ≡ true =
            rw (high.0, low.0) in
          let passed = check-percent mode general b'%' _ _ s f refl hex found in
          rw (other, unsafe) ((_, passed), rw (decode-percent, hex_value-digits c h))
      | inr safe ↦
          rw (other, safe)
            (read-plain c c s f (unfold should_escape in ground arith)
              (unfold decode_byte in ground arith) found)
    ]
  ]

  read-escape_loop :
      (s : Bytes)
      → All (IsEncodable mode) s
      → ((f : Found) × (check mode (escape_loop mode s) ≡ ok f))
        × (decode mode (escape_loop mode s) ≡ s)
  unfolding escape_loop
  read-escape_loop [] h = (((0, false), unfold check in refl), unfold decode in refl)
  read-escape_loop (c ∷ s) (hc, hs) =
      let ((f, found), same) = read-escape_loop s hs in
      let (accepted, decoded) = read-escape_byte c (escape_loop mode s) f hc found in
      (accepted, decoded ∙ ap (◌∷◌ c) same)

-- unescape gives back the byte string that was escaped, in every mode without rules of its own for
-- hosts; in the query mode, where "+" is read as a space, if the string holds none.
pub unescape-escape :
    (s : Bytes) (mode : Encoding)
    → IsGeneral mode
    → All (IsEncodable mode) s
    → unescape (escape s mode) mode ≡ ok s
unescape-escape s mode general h =
    let ((f, found), same) = read-escape_loop mode general s h in
    rw escape-escape_loop (unescape-found mode _ f found ∙ ap ok same)

custom-IsEncodable : (s : Bytes) → All (λ c. c < 256) s → All (IsEncodable encode_custom) s
custom-IsEncodable [] h = tt
custom-IsEncodable (c ∷ s) (h, hs) = ((h, λ e. cc), custom-IsEncodable s hs)

-- RemovePercentEncoding undoes AddPercentEncodingPath, for every byte string.
remove_percent_encoding-add_percent_encoding_path :
    (raw : Bytes)
    → All (λ c. c < 256) raw
    → remove_percent_encoding (add_percent_encoding_path raw) ≡ raw
unfolding remove_percent_encoding add_percent_encoding_path
remove_percent_encoding-add_percent_encoding_path raw h =
    rw (remove_percent_encoding, unescape-escape raw encode_custom refl (custom-IsEncodable raw h))
