-- ===== src/Extensions/Escape/Decode.antt =====
-- pkg/internal/extensions/escape.go: which texts unescape accepts, and what it makes of them.
use go_toolkit.Prelude.{
  ℕ, suc, ◌≡◌, ◌≢◌, ◌↔◌, ◌⊎◌, inl, inr, refl, ap, sym, ◌∙◌, true, false, not, ◌&&◌, ◌||◌, [], ◌∷◌,
  ◌==◌, Bytes, arith, Bool-cases,
}
use go_toolkit.Extensions.Escape.{
  Encoding, is_query, is_host, is_zone, is_hex, Outcome, ok, err, Found, EscapeFailure, bad_escape,
  bad_byte, check_byte, check, decode_byte, decode, unescape,
}

Found-cases : (r : Outcome Found) → ((f : Found) × (r ≡ ok f)) ⊎ ((e : EscapeFailure) × (r ≡ err e))
Found-cases (ok f) = inl (f, refl)
Found-cases (err e) = inr (e, refl)

-- a byte that is not "%" is checked by itself, whatever follows
pub check-plain :
    (mode : Encoding) (c : ℕ) (s : Bytes)
    → c ≢ b'%'
    → check mode (c ∷ s) ≡ check_byte mode c (check mode s)
unfolding check
check-plain mode c [] h = ground arith
check-plain mode c (a ∷ []) h = ground arith
check-plain mode c (a ∷ b ∷ s) h = ground arith

pub decode-plain :
    (mode : Encoding) (c : ℕ) (s : Bytes)
    → c ≢ b'%'
    → decode mode (c ∷ s) ≡ decode_byte mode c ∷ decode mode s
unfolding decode
decode-plain mode c [] h = refl
decode-plain mode c (a ∷ []) h = refl
decode-plain mode c (a ∷ b ∷ s) h = ground arith

check_byte_clean :
    (mode : Encoding) (c : ℕ) (r : Outcome Found)
    → check_byte mode c r ≡ ok (0, false)
    → (r ≡ ok (0, false)) × (decode_byte mode c ≡ c)
unfolding check_byte decode_byte
check_byte_clean mode c (ok (n, plus)) h = ground arith
check_byte_clean mode c (err e) h = ground arith

percent_found :
    (mode : Encoding) (c : ℕ) (s : Bytes) → c ≡ b'%' → check mode (c ∷ s) ≢ ok (0, false)
unfolding check
percent_found mode c [] e = ground arith
percent_found mode c (a ∷ []) e = ground arith
percent_found mode c (a ∷ b ∷ s) e = elim (Found-cases (check mode s)) [
  | inl ((n, plus), found) ↦ rw found (ground arith)
  | inr (x, failed) ↦ rw failed (ground arith)
]

-- where the check finds nothing to decode, decoding changes nothing
decode-clean : (mode : Encoding) (s : Bytes) → check mode s ≡ ok (0, false) → decode mode s ≡ s
decode-clean mode [] h = unfold decode in refl
decode-clean mode (c ∷ s) h = elim (Bool-cases (c == b'%')) [
  | inl percent ↦ absurd (percent_found mode c s (ground arith) h)
  | inr plain ↦
      let ne : c ≢ b'%' = ground arith in
      let clean = check_byte_clean mode c (check mode s) (sym (check-plain mode c s ne) ∙ h) in
      rw (decode-plain mode c s ne, clean.1, decode-clean mode s clean.0)
]

-- The shortcut for a text with nothing to decode gives what decoding it gives.
pub unescape-found :
    (mode : Encoding) (s : Bytes) (f : Found)
    → check mode s ≡ ok f
    → unescape s mode ≡ ok (decode mode s)
unfolding unescape
unescape-found mode s (n, plus) found = elim (Bool-cases (n == 0 && not plus)) [
  | inl clean ↦
      let none_found : check mode s ≡ ok (0, false) = found ∙ ground arith in
      rw (unescape, found, clean) (ap ok (sym (decode-clean mode s none_found)))
  | inr some_found ↦ rw (unescape, found, some_found)
]

pub unescape-failed :
    (mode : Encoding) (s : Bytes) (e : EscapeFailure)
    → check mode s ≡ err e
    → unescape s mode ≡ err e
unfolding unescape
unescape-failed mode s e failed = rw (unescape, failed)

-- a text in which every "%" stands before two hexadecimal digits
pub data IsEscaped : Bytes → Type 0 where
  nil : IsEscaped []
  plain : (c : ℕ) (s : Bytes) → c ≢ b'%' → IsEscaped s → IsEscaped (c ∷ s)
  percent :
      (c a b : ℕ) (s : Bytes)
      → c ≡ b'%'
      → (is_hex a && is_hex b) ≡ true
      → IsEscaped s
      → IsEscaped (c ∷ a ∷ b ∷ s)

-- the modes with no rules of their own for a host or a zone
abbrev pub IsGeneral : Encoding → Type 0
IsGeneral mode = (is_host mode || is_zone mode) ≡ false

module _ (mode : Encoding) (general : IsGeneral mode) where
  pub check_byte-ok : (c : ℕ) (f : Found) → (g : Found) × (check_byte mode c (ok f) ≡ ok g)
  unfolding check_byte bad_byte
  check_byte-ok c (n, plus) = elim (Bool-cases (c == b'+')) [
    | inl yes_plus ↦ ((n, is_query mode || plus), rw yes_plus)
    | inr no_plus ↦ ((n, plus), rw (no_plus, general))
  ]

  check_byte-err : (c : ℕ) (e : EscapeFailure) → check_byte mode c (err e) ≡ err e
  unfolding check_byte bad_byte
  check_byte-err c e = ground arith

  pub bad_escape-hex : (a b : ℕ) → bad_escape mode a b ≡ not (is_hex a && is_hex b)
  unfolding bad_escape
  bad_escape-hex a b = ground arith

  pub check-percent :
      (c a b : ℕ) (s : Bytes) (f : Found)
      → c ≡ b'%'
      → (is_hex a && is_hex b) ≡ true
      → check mode s ≡ ok f
      → check mode (c ∷ a ∷ b ∷ s) ≡ ok (suc f.0, f.1)
  unfolding check
  check-percent c a b s (n, plus) e hex found =
      let good : bad_escape mode a b ≡ false = bad_escape-hex a b ∙ ap not hex in
      let tested : (c == b'%') ≡ true = ground arith in rw (check, tested, good, found)

  IsEscaped-check : (s : Bytes) → IsEscaped s → (f : Found) × (check mode s ≡ ok f)
  IsEscaped-check s nil = ((0, false), unfold check in refl)
  IsEscaped-check s' (plain c s ne w) =
      let (f, found) = IsEscaped-check s w in
      let (g, passed) = check_byte-ok c f in (g, rw (check-plain mode c s ne, found) passed)
  IsEscaped-check s' (percent c a b s e hex w) =
      let (f, found) = IsEscaped-check s w in ((suc f.0, f.1), check-percent c a b s f e hex found)

  -- what is left of a text behind a byte that is not "%" is accepted as well
  check-tail :
      (c : ℕ) (s : Bytes) (f : Found)
      → c ≢ b'%'
      → check mode (c ∷ s) ≡ ok f
      → (g : Found) × (check mode s ≡ ok g)
  check-tail c s f ne h = elim (Found-cases (check mode s)) [
    | inl found ↦ found
    | inr (e, failed) ↦ absurd (cc (check-plain mode c s ne, check_byte-err c e))
  ]

  percent_hex :
      (c a b : ℕ) (s : Bytes) (f : Found)
      → c ≡ b'%'
      → check mode (c ∷ a ∷ b ∷ s) ≡ ok f
      → ((is_hex a && is_hex b) ≡ true) × ((g : Found) × (check mode s ≡ ok g))
  unfolding check
  percent_hex c a b s f e h =
      let tested : (c == b'%') ≡ true = ground arith in
      elim (Bool-cases (is_hex a && is_hex b)) [
        | inl hex ↦
            let good : bad_escape mode a b ≡ false = bad_escape-hex a b ∙ ap not hex in
            elim (Found-cases (check mode s)) [
              | inl found ↦ (hex, found)
              | inr (x, failed) ↦ absurd (cc (rw (check, tested, good, failed) at h))
            ]
        | inr no_hex ↦
            let bad : bad_escape mode a b ≡ true = bad_escape-hex a b ∙ ap not no_hex in
            absurd (cc (rw (check, tested, bad) at h))
      ]

  check-IsEscaped : (s : Bytes) (f : Found) → check mode s ≡ ok f → IsEscaped s
  check-IsEscaped [] f h = nil
  check-IsEscaped (c ∷ []) f h = elim (Bool-cases (c == b'%')) [
    | inl is_percent ↦ absurd (unfold check in ground arith)
    | inr other ↦ plain c [] (ground arith) nil
  ]
  check-IsEscaped (c ∷ a ∷ []) f h = elim (Bool-cases (c == b'%')) [
    | inl is_percent ↦ absurd (unfold check in ground arith)
    | inr other ↦
        let ne : c ≢ b'%' = ground arith in
        let (g, found) = check-tail c (a ∷ []) f ne h in
        plain c (a ∷ []) ne (check-IsEscaped (a ∷ []) g found)
  ]
  check-IsEscaped (c ∷ a ∷ b ∷ s) f h = elim (Bool-cases (c == b'%')) [
    | inl is_percent ↦
        let e : c ≡ b'%' = ground arith in
        let (hex, (g, found)) = percent_hex c a b s f e h in
        percent c a b s e hex (check-IsEscaped s g found)
    | inr other ↦
        let ne : c ≢ b'%' = ground arith in
        let (g, found) = check-tail c (a ∷ b ∷ s) f ne h in
        plain c (a ∷ b ∷ s) ne (check-IsEscaped (a ∷ b ∷ s) g found)
  ]

  -- In every mode without rules of its own for hosts, unescape succeeds exactly on the texts in
  -- which every "%" stands before two hexadecimal digits.
  pub unescape_iff_IsEscaped : (s : Bytes) → ((t : Bytes) × (unescape s mode ≡ ok t)) ↔ IsEscaped s
  unescape_iff_IsEscaped s = (there, back)
    where
      there : (t : Bytes) × (unescape s mode ≡ ok t) → IsEscaped s
      there (t, e) = elim (Found-cases (check mode s)) [
        | inl (f, found) ↦ check-IsEscaped s f found
        | inr (x, failed) ↦ absurd (cc (unescape-failed mode s x failed))
      ]

      back : IsEscaped s → (t : Bytes) × (unescape s mode ≡ ok t)
      back w =
          let (f, found) = IsEscaped-check s w in (decode mode s, unescape-found mode s f found)
