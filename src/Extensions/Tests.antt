-- ===== src/Extensions/Tests.antt =====
-- pkg/internal/extensions/escape.go: texts at which the theorems apply.
use go_toolkit.Prelude.{◌<◌, ◌≡◌, refl, ◌↔◌, [], ◌∷◌, Bytes, All, arith}
use go_toolkit.Extensions.Escape.{
  encode_path, encode_query_component, escape, escape_loop, unescape, ok,
}
use go_toolkit.Extensions.Escape.Safe.{escape-escape_loop}
use go_toolkit.Extensions.Escape.Decode.{IsEscaped, unescape_iff_IsEscaped}
use go_toolkit.Extensions.Escape.RoundTrip.{IsEncodable, unescape-escape}

-- "a b%/"
abbrev name : Bytes
name = b'a' ∷ b' ' ∷ b'b' ∷ b'%' ∷ b'/' ∷ []

name-bytes : All (λ c. c < 256) name
name-bytes = (omega arith, (omega arith, (omega arith, (omega arith, (omega arith, tt)))))

name-IsEncodable : All (IsEncodable encode_query_component) name
name-IsEncodable = (
  (omega arith, λ _. omega arith),
  (
    (omega arith, λ _. omega arith),
    (
      (omega arith, λ _. omega arith),
      ((omega arith, λ _. omega arith), ((omega arith, λ _. omega arith), tt)),
    ),
  ),
)

unescape-escape_example :
    unescape (escape name encode_query_component) encode_query_component ≡ ok name
unescape-escape_example = unescape-escape name encode_query_component refl name-IsEncodable

escape-escape_loop_example :
    escape name encode_query_component ≡ escape_loop encode_query_component name
escape-escape_loop_example = escape-escape_loop name encode_query_component

unescape_iff_IsEscaped_example : ((t : Bytes) × (unescape name encode_path ≡ ok t)) ↔ IsEscaped name
unescape_iff_IsEscaped_example = unescape_iff_IsEscaped encode_path refl name
