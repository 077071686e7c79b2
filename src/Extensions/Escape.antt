-- ===== src/Extensions/Escape.antt =====
-- pkg/internal/extensions/escape.go, and the two functions of string.go over it: percent-encoding
-- of byte strings. A byte is a number below 256. The output buffer, which Go allocates at its final
-- length and fills by index, is the list that is written so far.
pub mod Safe
pub mod Decode
pub mod RoundTrip
use go_toolkit.Prelude.{
  ℕ, zero, suc, ◌+◌, ◌-◌, ◌*◌, ◌/◌, ◌%◌, Bool, true, false, not, ◌&&◌, ◌||◌, List, [], ◌∷◌, ◌++◌,
  ltb, leb, ◌==◌, if◌then◌else◌, Bytes, length, get_or,
}

pub data Encoding : Type 0 where
  encode_path : Encoding
  encode_path_segment : Encoding
  encode_host : Encoding
  encode_zone : Encoding
  encode_user_password : Encoding
  encode_query_component : Encoding
  encode_fragment : Encoding
  encode_custom : Encoding

-- `mode == encodeQueryComponent` and the like
abbrev pub is_query : Encoding → Bool
is_query encode_query_component = true
is_query _ = false

abbrev pub is_host : Encoding → Bool
is_host encode_host = true
is_host _ = false

abbrev pub is_zone : Encoding → Bool
is_zone encode_zone = true
is_zone _ = false

abbrev pub is_custom : Encoding → Bool
is_custom encode_custom = true
is_custom _ = false

-- "0123456789ABCDEF"
abbrev pub upperhex : Bytes
upperhex = 48 ∷ 49 ∷ 50 ∷ 51 ∷ 52 ∷ 53 ∷ 54 ∷ 55 ∷ 56 ∷ 57 ∷ 65 ∷ 66 ∷ 67 ∷ 68 ∷ 69 ∷ 70 ∷ []

unfoldable pub is_hex : ℕ → Bool
is_hex c = (leb b'0' c && leb c b'9') || (leb b'a' c && leb c b'f') || (leb b'A' c && leb c b'F')

unfoldable pub unhex : ℕ → ℕ
unhex c =
    if leb b'0' c && leb c b'9'
    then c - b'0'
    else if leb b'a' c && leb c b'f'
    then c - b'a' + 10
    else if leb b'A' c && leb c b'F'
    then c - b'A' + 10
    else 0

abbrev pub is_alphanum : ℕ → Bool
is_alphanum c =
    (leb b'a' c && leb c b'z') || (leb b'A' c && leb c b'Z') || (leb b'0' c && leb c b'9')

-- '-', '_', '.', '~'
abbrev pub is_mark : ℕ → Bool
is_mark c = (c == b'-') || (c == b'_') || (c == b'.') || (c == b'~')

-- '$', '&', '+', ',', '/', ':', ';', '=', '?', '@'
abbrev pub is_reserved : ℕ → Bool
is_reserved c =
    (c == b'$')
    || (c == b'&')
    || (c == b'+')
    || (c == b',')
    || (c == b'/')
    || (c == b':')
    || (c == b';')
    || (c == b'=')
    || (c == b'?')
    || (c == b'@')

unfoldable pub should_escape : ℕ → Encoding → Bool
should_escape c mode =
    if is_alphanum c
    then false
    else if is_mark c
    then false
    else if is_reserved c
    then false
    else if is_custom mode && c == b'#'
    then false
    else true

-- the counting loop: the bytes that become "+" and those that become "%XX"
unfoldable pub space_count : Encoding → Bytes → ℕ
space_count mode [] = 0
space_count mode (c ∷ s) =
    (if should_escape c mode && (c == b' ' && is_query mode) then 1 else 0) + space_count mode s

unfoldable pub hex_count : Encoding → Bytes → ℕ
hex_count mode [] = 0
hex_count mode (c ∷ s) =
    (if should_escape c mode && not (c == b' ' && is_query mode) then 1 else 0) + hex_count mode s

-- the loop without hexadecimal escapes
unfoldable pub plus_spaces : Bytes → Bytes
plus_spaces [] = []
plus_spaces (c ∷ s) = (if c == b' ' then b'+' else c) ∷ plus_spaces s

-- what one round of the last loop writes
unfoldable pub escape_byte : Encoding → ℕ → Bytes
escape_byte mode c =
    if c == b' ' && is_query mode
    then b'+' ∷ []
    else if should_escape c mode
    then b'%' ∷ get_or upperhex (c / 16) 0 ∷ get_or upperhex (c % 16) 0 ∷ []
    else c ∷ []

unfoldable pub escape_loop : Encoding → Bytes → Bytes
escape_loop mode [] = []
escape_loop mode (c ∷ s) = escape_byte mode c ++ escape_loop mode s

unfoldable pub escape : Bytes → Encoding → Bytes
escape s mode =
    if space_count mode s == 0 && hex_count mode s == 0
    then s
    else if hex_count mode s == 0
    then plus_spaces s
    else escape_loop mode s

pub data EscapeFailure : Type 0 where
  escape_error : Bytes → EscapeFailure
  invalid_host_error : Bytes → EscapeFailure

-- `(string, error)`
pub data Outcome (A : Type 0) : Type 0 where
  ok : A → Outcome A
  err : EscapeFailure → Outcome A

-- `unhex(s[i+1])<<4 | unhex(s[i+2])`: the two do not share a bit
abbrev pub hex_value : ℕ → ℕ → ℕ
hex_value a b = unhex a * 16 + unhex b

-- `s[i:i+3] != "%25"`
abbrev pub not_percent : ℕ → ℕ → Bool
not_percent a b = not (a == b'2' && b == b'5')

-- what the checking loop finds: the number of escapes, and whether there is a "+" to decode
abbrev pub Found : Type 0
Found = ℕ × Bool

-- the tests of the checking loop on "%ab"
unfoldable pub bad_escape : Encoding → ℕ → ℕ → Bool
bad_escape mode a b =
    not (is_hex a && is_hex b)
    || (is_host mode && ltb (unhex a) 8 && not_percent a b)
    || (is_zone mode
        && not_percent a b
        && not (hex_value a b == b' ')
        && should_escape (hex_value a b) encode_host)

-- and on a byte that is neither "%" nor "+"
unfoldable pub bad_byte : Encoding → ℕ → Bool
bad_byte mode c = (is_host mode || is_zone mode) && ltb c 0x80 && should_escape c mode

-- a round on a byte that is not "%", with the rest of the loop
unfoldable pub check_byte : Encoding → ℕ → Outcome Found → Outcome Found
check_byte mode c rest =
    if c == b'+'
    then elim rest [ ok (n, plus) ↦ ok (n, is_query mode || plus) | err e ↦ err e ]
    else if bad_byte mode c
    then err (invalid_host_error (c ∷ []))
    else rest

-- the checking loop. The rest is checked whether or not the byte is refused, and its outcome is
-- read only if it is not.
unfoldable pub check : Encoding → Bytes → Outcome Found
check mode [] = ok (0, false)
check mode (c ∷ []) =
    if c == b'%' then err (escape_error (c ∷ [])) else check_byte mode c (ok (0, false))
check mode (c ∷ a ∷ []) =
    let rest = check mode (a ∷ []) in
    if c == b'%' then err (escape_error (c ∷ a ∷ [])) else check_byte mode c rest
check mode (c ∷ a ∷ b ∷ s) =
    let behind = check mode s in
    let rest = check mode (a ∷ b ∷ s) in
    if c == b'%'
    then (if bad_escape mode a b
        then err (escape_error (c ∷ a ∷ b ∷ []))
        else elim behind [ ok (n, plus) ↦ ok (suc n, plus) | err e ↦ err e ])
    else check_byte mode c rest

-- the decoding loop, which the checking loop has made safe: it finds two bytes behind each "%"
unfoldable pub decode_byte : Encoding → ℕ → ℕ
decode_byte mode c = if c == b'+' && is_query mode then b' ' else c

unfoldable pub decode : Encoding → Bytes → Bytes
decode mode [] = []
decode mode (c ∷ []) = decode_byte mode c ∷ []
decode mode (c ∷ a ∷ []) = decode_byte mode c ∷ decode mode (a ∷ [])
decode mode (c ∷ a ∷ b ∷ s) =
    let behind = decode mode s in
    let rest = decode mode (a ∷ b ∷ s) in
    if c == b'%' then hex_value a b ∷ behind else decode_byte mode c ∷ rest

unfoldable pub unescape : Bytes → Encoding → Outcome Bytes
unescape s mode = elim (check mode s) [
  | ok (n, plus) ↦ ok (if n == 0 && not plus then s else decode mode s)
  | err e ↦ err e
]

-- string.go
pub remove_percent_encoding : Bytes → Bytes
remove_percent_encoding raw = elim (unescape raw encode_custom) [ ok dec ↦ dec | err _ ↦ raw ]

pub add_percent_encoding_path : Bytes → Bytes
add_percent_encoding_path raw = escape raw encode_custom
