-- ===== src/Search/Corpus.antt =====
-- pkg/search/corpus.go: the corpus. The tokens of the HTML tokenizer are the input; a resource is
-- extracted by one step for each token.
pub mod Valid
pub mod Segments
pub mod Extraction
pub mod Extracted
use Prim.Native.String.{String}
use text.Mathlib.Text.{◌==◌ as str_eq}
use go_toolkit.Prelude.{
  ℕ, zero, suc, ◌+◌, ◌-◌, ◌*◌, ◌/◌, Bool, true, false, not, ◌&&◌, ◌||◌, Option, none, some, List,
  [], ◌∷◌, ◌++◌, ltb, leb, ◌==◌, if◌then◌else◌, Bytes, length, take, drop, get_or, replicate,
}
use go_toolkit.Prelude.Assoc.{lookup, insert}
use go_toolkit.Search.Text.{Rune, Unicode, is_ascii_space, fold_rune}

abbrev any_of : List String → String → Bool
any_of [] s = false
any_of (x ∷ xs) s = str_eq x s || any_of xs s

unfoldable pub excluded_elements : String → Bool
excluded_elements = any_of ("head" ∷ "script" ∷ "style" ∷ "noscript" ∷ "template" ∷ [])

unfoldable pub block_elements : String → Bool
block_elements = any_of (
    "address" ∷ "article" ∷ "aside" ∷ "blockquote" ∷ "caption" ∷ "dd" ∷ "dl" ∷ "dt" ∷ "fieldset"
    ∷ "figcaption" ∷ "figure" ∷ "footer" ∷ "form" ∷ "h1" ∷ "h2" ∷ "h3" ∷ "h4" ∷ "h5" ∷ "h6"
    ∷ "header" ∷ "hr" ∷ "li" ∷ "main" ∷ "nav" ∷ "ol" ∷ "p" ∷ "pre" ∷ "section" ∷ "table" ∷ "td"
    ∷ "tfoot" ∷ "th" ∷ "thead" ∷ "tr" ∷ "ul" ∷ [])

-- what z.Next returns before the error token that ends the input
pub data Token : Type 0 where
  text_token : Bytes → Token
  start_tag_token : String → Token
  self_closing_tag_token : String → Token
  end_tag_token : String → Token
  other_token : Token

-- the coordinate systems while they are built: `plain`, `excluded` and `last_nl` are the variables
-- of extractResource, the others fields of its resourceText
pub record Extract : Type 0 where
  pub plain : Bytes
  pub norm_runes : List ℕ
  pub plain_off : List ℕ
  pub fold_runes : List ℕ
  pub src_idx : List ℕ
  pub excluded : ℕ
  pub last_nl : Bool

unfoldable pub ends_with_space : List ℕ → Bool
ends_with_space [] = false
ends_with_space (r ∷ []) = r == b' '
ends_with_space (_ ∷ r ∷ rs) = ends_with_space (r ∷ rs)

-- one rune of the normal form, the runes that it folds to, and its plain offset
unfoldable pub push_rune : ℕ → List ℕ → ℕ → Extract → Extract
push_rune r folded poff st = record st {
  norm_runes = st.norm_runes ++ r ∷ [];
  plain_off = st.plain_off ++ poff ∷ [];
  fold_runes = st.fold_runes ++ folded;
  src_idx = st.src_idx ++ replicate (length folded) (length st.norm_runes);
}

unfoldable pub add_separator : ℕ → Extract → Extract
add_separator poff st =
    if ends_with_space st.norm_runes then st else push_rune b' ' (b' ' ∷ []) poff st

-- the two halves of ensureBoundary
unfoldable pub write_boundary : Extract → Extract
write_boundary st =
    if ltb 0 (length st.plain) && not st.last_nl
    then record st { plain = st.plain ++ 10 ∷ []; last_nl = true }
    else st

unfoldable pub ensure_boundary : Extract → Extract
ensure_boundary st =
    let st' = write_boundary st in
    if ltb 0 (length st'.plain) then add_separator (length st'.plain - 1) st' else st'

module _ (u : Unicode) where
  -- `runes_before` stands for the runes of `nfc[:bi]`
  unfoldable pub approximate_source_offset : Bytes → Bytes → ℕ → ℕ → ℕ
  approximate_source_offset seg nfc bi runes_before =
      let total_src = length (u.runes seg) in
      let total_dst = length (u.runes nfc) in
      if length seg == length nfc
      then bi
      else if total_src == 0
      then 0
      else if total_dst == 0
      then 0
      else runes_before * length seg / total_dst

  -- the loop over the runes of the normal form; `bi` is the byte offset, `k` the runes before it
  unfoldable pub emit_runes : Bytes → Bytes → ℕ → ℕ → ℕ → List Rune → Extract → Extract
  emit_runes seg nfc base bi k [] st = st
  emit_runes seg nfc base bi k (r ∷ rs) st =
      emit_runes seg nfc base (bi + (if r.size == 0 then 1 else r.size)) (suc k) rs
        (push_rune r.value (fold_rune u r.value) (base + approximate_source_offset seg nfc bi k) st)

  unfoldable pub emit_segment : Bytes → ℕ → Extract → Extract
  emit_segment seg base st =
      let nfc_str = if u.is_normal seg then seg else u.nfc seg in
      if length seg == 0
      then st
      else record (emit_runes seg nfc_str base 0 0 (u.runes nfc_str) st) { last_nl = false }

  -- how many bytes at the front are (not) ASCII spaces
  unfoldable pub space_run : Bool → Bytes → ℕ
  space_run wanted [] = 0
  space_run true (b ∷ bs) = if is_ascii_space b then suc (space_run true bs) else 0
  space_run false (b ∷ bs) = if is_ascii_space b then 0 else suc (space_run false bs)

  -- one round of the loop that splits a text: `j` bytes that are no spaces, at `at`, then `k` that
  -- are
  unfoldable pub split_round : ℕ → ℕ → Bytes → ℕ → Extract → Extract
  split_round j k rest at st =
      let st' = if ltb 0 j then emit_segment (take j rest) at st else st in
      if ltb 0 k && ltb 0 (length st'.plain) then add_separator (at + j) st' else st'

  -- the loop, with `at` its `base + i`; a round takes at least one byte
  unfoldable pub split_text : ℕ → Bytes → ℕ → Extract → Extract
  split_text zero rest at st = st
  split_text (suc f) rest at st =
      let j = space_run false rest in
      let k = space_run true (drop j rest) in
      let more = split_text f (drop (j + k) rest) (at + j + k) (split_round j k rest at st) in
      if length rest == 0 then st else more

  unfoldable pub on_text : Bytes → Extract → Extract
  on_text text st =
      if ltb 0 st.excluded || length text == 0
      then st
      else split_text (length text) text (length st.plain) (record st { plain = st.plain ++ text })

  unfoldable pub on_start : String → Extract → Extract
  on_start name st =
      if excluded_elements name
      then record st { excluded = suc st.excluded }
      else if block_elements name
      then ensure_boundary st
      else st

  unfoldable pub on_end : String → Extract → Extract
  on_end name st =
      if excluded_elements name && ltb 0 st.excluded
      then record st { excluded = st.excluded - 1 }
      else if block_elements name
      then ensure_boundary st
      else st

  unfoldable pub on_token : Token → Extract → Extract
  on_token (text_token text) st = on_text text st
  on_token (start_tag_token name) st = on_start name st
  on_token (self_closing_tag_token name) st = on_start name st
  on_token (end_tag_token name) st = on_end name st
  on_token other_token st = st

  unfoldable pub on_tokens : List Token → Extract → Extract
  on_tokens [] st = st
  on_tokens (t ∷ ts) st = on_tokens ts (on_token t st)

abbrev pub start : Extract
start = record {
  plain = [];
  norm_runes = [];
  plain_off = [];
  fold_runes = [];
  src_idx = [];
  excluded = 0;
  last_nl = false;
}

pub record ResourceText : Type 0 where
  pub index : ℕ
  pub plain : Bytes
  pub norm_runes : List ℕ
  pub plain_off : List ℕ
  pub fold_runes : List ℕ
  pub src_idx : List ℕ

-- what the error token makes of the state: the offsets are closed by the length
unfoldable pub close : ℕ → Extract → ResourceText
close index st = record {
  index = index;
  plain = st.plain;
  norm_runes = st.norm_runes;
  plain_off = st.plain_off ++ length st.plain ∷ [];
  fold_runes = st.fold_runes;
  src_idx = st.src_idx;
}

unfoldable pub finish : ℕ → Extract → Option ResourceText
finish index st = if length st.norm_runes == 0 then none else some (close index st)

unfoldable pub extract_resource : Unicode → ℕ → List Token → Option ResourceText
extract_resource u index tokens = finish index (on_tokens u tokens start)
