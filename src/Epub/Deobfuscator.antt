-- ===== src/Epub/Deobfuscator.antt =====
-- pkg/parser/epub/deobfuscator.go: DeobfuscatingResource, over a resource whose first bytes are
-- combined with a key. SHA-1, the decoding of hexadecimal digits and the replacement of text are
-- parameters. The writer of Stream accepts all that it is given.
pub mod Revealed
pub mod Reads
pub mod Streams
use Prim.Native.Nat.{bit_xor}
use Prim.Native.String.{String}
use text.Mathlib.Text.{◌==◌ as str_eq}
use go_toolkit.Prelude.{
  ℕ, zero, suc, ◌+◌, ◌-◌, ◌%◌, min, Bool, not, ◌&&◌, ◌||◌, Option, none, some, [], ◌∷◌, ◌++◌, ltb,
  leb, ◌==◌, if◌then◌else◌, Bytes, length, get_or, take, drop,
}
use go_toolkit.Prelude.Panic.{Run, done, panic, ◌>>=◌}
use go_toolkit.Fetcher.Resource.{
  Resource, Result, ok, err, ResourceErrorCode, code_internal_server_error,
}

-- crypto/sha1, encoding/hex (the bytes before the first error) and strings.Replace
pub record Codecs : Type 0 where
  pub sha1 : String → Bytes
  pub decode_hex : String → Bytes
  pub replace_all : String → String → String → String

abbrev pub adobe : String
adobe = "http://ns.adobe.com/pdf/enc#RC"

abbrev pub idpf : String
idpf = "http://www.idpf.org/2008/embedding"

-- algorithm2length; 0 for an algorithm that it does not have
unfoldable pub algorithm_length : String → ℕ
algorithm_length algorithm =
    if str_eq algorithm idpf then 1040 else if str_eq algorithm adobe then 1024 else 0

-- what Stream of the wrapped resource pipes: its bytes, and the error that ends them
pub record Piped : Type 0 where
  pub bytes : Bytes
  pub failure : Option ResourceErrorCode

-- `algorithm` is that of the link's encryption, or empty
pub record DeobfuscatingResource : Type 0 where
  pub resource : Resource
  pub pipe : ℕ → ℕ → Piped
  pub algorithm : String
  pub identifier : String

module _ (codecs : Codecs) where
  unfoldable pub get_hash_key_adobe : String → Bytes
  get_hash_key_adobe identifier =
      codecs.decode_hex (codecs.replace_all (codecs.replace_all identifier "urn:uuid:" "") "-" "")

  -- the switch on the algorithm in Read and Stream
  unfoldable pub obfuscation_key : DeobfuscatingResource → Bytes
  obfuscation_key d =
      if str_eq d.algorithm adobe then get_hash_key_adobe d.identifier else codecs.sha1 d.identifier

-- the loop of deobfuscateFont over `k` bytes, the first at offset `at`; a remainder by 0 panics
unfoldable pub xor_bytes : Bytes → ℕ → ℕ → Bytes → Run Bytes
xor_bytes key at zero bs = done bs
xor_bytes key at (suc k) [] = panic
xor_bytes key at (suc k) (b ∷ bs) =
    if length key == 0
    then panic
    else (xor_bytes key (suc at) k bs >>= λ rest.
        done (bit_xor b (get_or key (at % length key) 0) ∷ rest))

unfoldable pub deobfuscate_font : Bytes → ℕ → Bytes → ℕ → Run Bytes
deobfuscate_font bs start key obfuscation_length =
    if leb obfuscation_length start
    then done bs
    else xor_bytes key start (min (obfuscation_length - start) (length bs)) bs

-- what Stream has written, and its error
pub record Sent : Type 0 where
  pub written : Bytes
  pub failure : Option ResourceErrorCode

module _ (codecs : Codecs) where
  unfoldable pub read : DeobfuscatingResource → ℕ → ℕ → Run (Result Bytes)
  read d start end =
      let v = algorithm_length d.algorithm in
      if ltb 0 v
      then elim (d.resource.read start end) [
        | err x ↦ done (err x)
        | ok bs ↦ deobfuscate_font bs start (obfuscation_key codecs d) v >>= λ r. done (ok r)
      ]
      else done (d.resource.read start end)

  -- Stream behind the read of the obfuscated portion, which took `on` bytes
  unfoldable pub send : DeobfuscatingResource → ℕ → ℕ → ℕ → Piped → ℕ → Run Sent
  send d v start end piped on =
      let key = obfuscation_key codecs d in
      let at_end = ltb on v || (not (end == 0) && leb end (start + on)) in
      if length key == 0
      then done (record { written = []; failure = some code_internal_server_error })
      else (deobfuscate_font (take on piped.bytes) start key v >>= λ portion. done (
          if at_end then record { written = portion; failure = none } else record {
            written = portion ++ drop on piped.bytes;
            failure = elim piped.failure [ none ↦ none | some x ↦ some code_internal_server_error ];
          }))

  -- Stream of an obfuscated range: the portion is an error if there is none of it, or if the pipe
  -- ends it with one
  unfoldable pub stream_portion : DeobfuscatingResource → ℕ → ℕ → ℕ → Piped → Run Sent
  stream_portion d v start end piped =
      let on = min v (length piped.bytes) in
      if leb v (length piped.bytes) then send d v start end piped on else elim piped.failure [
        | some x ↦ done (record { written = []; failure = some x })
        | none ↦
            if on == 0
            then done (record { written = []; failure = some code_internal_server_error })
            else send d v start end piped on
      ]

  unfoldable pub stream : DeobfuscatingResource → ℕ → ℕ → Run Sent
  stream d start end =
      let v = algorithm_length d.algorithm in
      let piped = d.pipe start end in
      if ltb 0 v && ltb start v
      then stream_portion d v start end piped
      else done (record { written = piped.bytes; failure = piped.failure })
