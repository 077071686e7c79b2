-- ===== src/Search/Text.antt =====
-- pkg/search/corpus.go: runes. What golang.org/x/text, unicode and unicode/utf8 supply is a
-- parameter: the normal form, the decoding into runes, lower case, and the two classes.
use go_toolkit.Prelude.{ℕ, Bool, ◌||◌, List, [], ◌∷◌, ◌==◌, if◌then◌else◌, Bytes}

-- a decoded rune, and how many bytes it takes
pub record Rune : Type 0 where
  pub value : ℕ
  pub size : ℕ

pub record Unicode : Type 0 where
  pub is_normal : Bytes → Bool
  pub nfc : Bytes → Bytes
  pub runes : Bytes → List Rune
  pub to_lower : ℕ → ℕ
  pub is_letter : ℕ → Bool
  pub is_digit : ℕ → Bool

-- ' ', '\t', '\n', '\r', '\f', '\v'
unfoldable pub is_ascii_space : ℕ → Bool
is_ascii_space b = (b == 32) || (b == 9) || (b == 10) || (b == 13) || (b == 12) || (b == 11)

module _ (u : Unicode) where
  unfoldable pub fold_rune : ℕ → List ℕ
  fold_rune r =
      if (r == 0xdf) || (r == 0x1e9b)
      then b's' ∷ b's' ∷ []
      else if r == 0xfb00
      then b'f' ∷ b'f' ∷ []
      else if r == 0xfb01
      then b'f' ∷ b'i' ∷ []
      else if r == 0xfb02
      then b'f' ∷ b'l' ∷ []
      else if r == 0xfb03
      then b'f' ∷ b'f' ∷ b'i' ∷ []
      else if r == 0xfb04
      then b'f' ∷ b'f' ∷ b'l' ∷ []
      else if (r == 0xfb05) || (r == 0xfb06)
      then b's' ∷ b't' ∷ []
      else u.to_lower r ∷ []

  unfoldable pub is_word_rune : ℕ → Bool
  is_word_rune r = u.is_letter r || u.is_digit r || (r == b'\'') || (r == 0x2019)
