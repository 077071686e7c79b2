-- ===== src/Audio/CachedResource.antt =====
-- pkg/parser/audio/servecache.go: cachedResource, which answers from the retained blocks what they
-- cover and asks the wrapped resource for the rest. A writer is a state, with the io.Writer
-- operation and the wrapped resource's Stream as parameters of Stream.
pub mod Reads
pub mod Streams
use go_toolkit.Prelude.{
  ℕ, zero, suc, ◌+◌, ◌-◌, min, Bool, true, false, ◌&&◌, ◌||◌, Option, none, some, [], ltb, leb,
  ◌==◌, if◌then◌else◌, Bytes, length,
}
use go_toolkit.Prelude.Int.{ℤ, pos, negsuc, pos_part, leb_ℤ}
use go_toolkit.Prelude.Panic.{Run, done, panic, ◌>>=◌}
use go_toolkit.Fetcher.Resource.{
  Resource, Result, ok, err, ResourceErrorCode, code_internal_server_error,
}
use go_toolkit.Audio.RetainedCache.{RetainedCache, slice, prefix}

pub record CachedResource : Type 0 where
  pub resource : Resource
  pub cache : RetainedCache

-- a range as normalize returns it
pub record Normalized : Type 0 where
  pub start : ℕ
  pub end : ℕ
  pub whole : Bool

unfoldable pub normalize : CachedResource → ℕ → ℕ → Normalized
normalize r start end =
    if start == 0 && end == 0
    then (if leb_ℤ r.cache.size (pos 0)
        then record { start = start; end = end; whole = true }
        else record { start = 0; end = pos_part r.cache.size - 1; whole = false })
    else record { start = start; end = end; whole = false }

unfoldable pub cached_length : CachedResource → Result ℕ
cached_length r =
    if leb_ℤ (pos 0) r.cache.size then ok (pos_part r.cache.size) else r.resource.length

unfoldable pub read : CachedResource → ℕ → ℕ → Run (Result Bytes)
read r start end =
    let n = normalize r start end in
    let direct = done (r.resource.read start end) in
    if n.whole
    then direct
    else (slice r.cache n.start n.end >>= λ hit. elim hit [ some b ↦ done (ok b) | none ↦ direct ])

-- what Stream returns: the state of the writer, the count, and the error
pub record Streamed (W : Type 0) : Type 0 where
  pub writer : W
  pub count : ℤ
  pub failure : Option ResourceErrorCode

-- what io.Writer's Write returns: the bytes that it took, and whether there was an error
pub record Written (W : Type 0) : Type 0 where
  pub writer : W
  pub taken : ℕ
  pub failed : Bool

-- `written += m` if `m > 0`
abbrev pub add_count : ℕ → ℤ → ℤ
add_count n (pos m) = pos (n + m)
add_count n (negsuc m) = pos n

module _ {W : Type 0} (write : W → Bytes → Written W) (source : W → ℕ → ℕ → Streamed W) where
  unfoldable pub stream : CachedResource → W → ℕ → ℕ → Streamed W
  stream r w start end =
      let n = normalize r start end in
      let pre = prefix r.cache n.start n.end in
      let direct = source w start end in
      let first = write w pre in
      let rest = source first.writer (n.start + first.taken) n.end in
      if n.whole || length pre == 0
      then direct
      else if first.failed
      then record {
        writer = first.writer;
        count = pos first.taken;
        failure = some code_internal_server_error;
      }
      else if ltb n.end (n.start + first.taken)
      then record { writer = first.writer; count = pos first.taken; failure = none }
      else record {
        writer = rest.writer;
        count = add_count first.taken rest.count;
        failure = rest.failure;
      }
