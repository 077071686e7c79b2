-- ===== src/Search/Tests.antt =====
-- pkg/search: a text and a query at which the theorems apply. The normal form of ASCII is itself,
-- and a rune of it is a byte.
use go_toolkit.Prelude.{
  ℕ, ◌<◌, ◌≡◌, refl, true, false, ◌&&◌, none, some, List, [], ◌∷◌, Bytes, length, All, leb, slice,
  take, drop, arith,
}
use mathlib.Core.Option.{some-injective}
use go_toolkit.Prelude.Int.{pos, negsuc}
use go_toolkit.Prelude.Assoc.{insert}
use go_toolkit.Prelude.Panic.{Ends}
use go_toolkit.Search.Text.{Rune, Unicode, fold_rune, is_ascii_space, is_word_rune}
use go_toolkit.Search.Corpus.{
  Token, text_token, start_tag_token, ResourceText, extract_resource, excluded_elements,
}
use go_toolkit.Search.Corpus as Corpus
use go_toolkit.Search.Corpus.Segments.{IsDecoding, total_size}
use go_toolkit.Search.Corpus.Extracted.{
  IsValid, extract_resource-IsValid, self_closing_hides_resource,
}
use go_toolkit.Search.Match.{scan, find_in_resource}
use go_toolkit.Search.Match.Occurrence.{IsBoundary, Occurs}
use go_toolkit.Search.Match.Scan.{Covers, IsSpaced, scan-Covers}
use go_toolkit.Search.Match.Build.{IsMatch, find_in_resource-IsMatch}
use go_toolkit.Search.Library.{Resource, Corpus, build, progressions_at}
use go_toolkit.Search.Library as Library
use go_toolkit.Search.Library.Sums.{
  IsSummed, build-IsSummed, IsProgression, progressions_at-IsProgression,
}

abbrev ascii_runes : Bytes → List Rune
ascii_runes [] = []
ascii_runes (b ∷ bs) = record { value = b; size = 1 } ∷ ascii_runes bs

abbrev ascii : Unicode
ascii = record {
  is_normal = λ s. true;
  nfc = λ s. s;
  runes = ascii_runes;
  to_lower = λ r. r;
  is_letter = λ r. leb b'a' r && leb r b'z';
  is_digit = λ r. false;
}

ascii_runes-sizes : (s : Bytes) → total_size (ascii_runes s) ≡ length s
ascii_runes-sizes [] = refl
ascii_runes-sizes (b ∷ bs) = omega (arith, ascii_runes-sizes bs)

ascii_runes-positive : (s : Bytes) → All (λ r. 0 < r.size) (ascii_runes s)
ascii_runes-positive [] = tt
ascii_runes-positive (b ∷ bs) = (omega arith, ascii_runes-positive bs)

ascii-IsDecoding : IsDecoding ascii
ascii-IsDecoding = record { sizes = ascii_runes-sizes; positive = ascii_runes-positive }

-- "ab  ab"
abbrev ab_ab : Bytes
ab_ab = b'a' ∷ b'b' ∷ b' ' ∷ b' ' ∷ b'a' ∷ b'b' ∷ []

abbrev ab_text : ResourceText
ab_text = record {
  index = 0;
  plain = ab_ab;
  norm_runes = b'a' ∷ b'b' ∷ b' ' ∷ b'a' ∷ b'b' ∷ [];
  plain_off = 0 ∷ 1 ∷ 2 ∷ 4 ∷ 5 ∷ 6 ∷ [];
  fold_runes = b'a' ∷ b'b' ∷ b' ' ∷ b'a' ∷ b'b' ∷ [];
  src_idx = 0 ∷ 1 ∷ 2 ∷ 3 ∷ 4 ∷ [];
}

ab-extracted : extract_resource ascii 0 (text_token ab_ab ∷ []) ≡ some ab_text
unfolding extract_resource Corpus.finish Corpus.close Corpus.on_tokens Corpus.on_token
    Corpus.on_text Corpus.split_text Corpus.split_round Corpus.space_run Corpus.emit_segment
    Corpus.emit_runes Corpus.approximate_source_offset Corpus.add_separator Corpus.push_rune
    Corpus.ends_with_space fold_rune is_ascii_space
ab-extracted = refl

ab_text-IsValid : IsValid ab_text
ab_text-IsValid =
    extract_resource-IsValid ascii 0 (text_token ab_ab ∷ []) ab_text ascii-IsDecoding ab-extracted

extract_resource-IsValid_example : IsValid ab_text
extract_resource-IsValid_example =
    extract_resource-IsValid ascii 0 (text_token ab_ab ∷ []) ab_text ascii-IsDecoding ab-extracted

abbrev ab : List ℕ
ab = b'a' ∷ b'b' ∷ []

find_in_resource-IsMatch_example :
    Ends (All (IsMatch ascii ab_text ab)) (find_in_resource ascii ab_text ab)
find_in_resource-IsMatch_example = find_in_resource-IsMatch ascii ab_text ab ab_text-IsValid

no_rune_behind : IsBoundary ascii ab (drop 5 ab_text.fold_runes)
no_rune_behind a b ea eb = absurd (ground (arith, eb))

space_before : IsBoundary ascii (take 3 ab_text.fold_runes) ab
unfolding is_word_rune
space_before a b ea eb = rw (← some-injective b' ' a ea) refl

ab-Occurs : Occurs ascii ab_text.fold_runes ab 3
unfolding slice
ab-Occurs = record {
  within = omega arith;
  same = refl;
  starts = space_before;
  ends = no_rune_behind;
}

scan-Covers_example :
    Ends
      (λ js. All (Occurs ascii ab_text.fold_runes ab) js × IsSpaced 2 js × Covers 2 3 js)
      (scan ascii ab_text.fold_runes ab)
scan-Covers_example = scan-Covers ascii ab_text.fold_runes ab 3 (omega arith) ab-Occurs

script-excluded : excluded_elements "script" ≡ true
unfolding excluded_elements
script-excluded = refl

self_closing_hides_resource_example :
    extract_resource ascii 0
      (Token.self_closing_tag_token "script" ∷ text_token ab_ab ∷ start_tag_token "p" ∷ [])
    ≡ none
self_closing_hides_resource_example =
    self_closing_hides_resource ascii 0 "script" (text_token ab_ab ∷ start_tag_token "p" ∷ [])
      script-excluded tt

abbrev as_text : Bytes → List Token
as_text s = text_token s ∷ []

abbrev one_resource : List Resource
one_resource = record { index = 0; bytes = ab_ab } ∷ []

abbrev ab_corpus : Corpus
ab_corpus = record {
  resources = ab_text ∷ [];
  cumulative_plain = 0 ∷ 6 ∷ [];
  total_plain = 6;
  resource_position = (0, 0) ∷ [];
}

ab-built : build ascii as_text (pos 0) (λ r. false) one_resource ≡ some ab_corpus
unfolding build Library.build_loop Library.build_round Library.add_resource Library.limit_of insert
    extract_resource Corpus.finish Corpus.close Corpus.on_tokens Corpus.on_token Corpus.on_text
    Corpus.split_text Corpus.split_round Corpus.space_run Corpus.emit_segment Corpus.emit_runes
    Corpus.approximate_source_offset Corpus.add_separator Corpus.push_rune Corpus.ends_with_space
    fold_rune is_ascii_space
ab-built = refl

ab_corpus-IsSummed : IsSummed ab_corpus
ab_corpus-IsSummed =
    build-IsSummed ascii as_text (pos 0) (λ r. false) one_resource ab_corpus ab-built

build-IsSummed_example : IsSummed ab_corpus
build-IsSummed_example =
    build-IsSummed ascii as_text (pos 0) (λ r. false) one_resource ab_corpus ab-built

progressions_at-IsProgression_example :
    IsProgression (progressions_at ab_corpus 0 (negsuc 4)).0
    × IsProgression (progressions_at ab_corpus 0 (negsuc 4)).1
progressions_at-IsProgression_example =
    progressions_at-IsProgression ab_corpus 0 (negsuc 4) ab_corpus-IsSummed
