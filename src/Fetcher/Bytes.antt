-- ===== src/Fetcher/Bytes.antt =====
-- pkg/fetcher/resource_bytes.go: BytesResource, a resource over a buffer that is loaded when it is
-- first read. A nil buffer is `none`. The buffer's capacity is its length, so that a slice
-- expression past the length panics. The writer of Stream accepts all that it is given.
pub mod Ranges
use go_toolkit.Prelude.{
  ℕ, suc, ◌+◌, ◌-◌, Bool, true, ◌&&◌, ◌||◌, Option, none, some, ltb, ◌==◌, if◌then◌else◌, Bytes,
  length, slice, List, [], ◌∷◌,
}
use go_toolkit.Prelude.Panic.{Run, done, panic}
use go_toolkit.Fetcher.Resource.{
  Result, ok, err, code_requested_range_not_satisfiable, code_internal_server_error,
}

pub record BytesResource : Type 0 where
  pub loader : Option Bytes
  pub bytes : Option Bytes

-- `len` of a slice that may be nil
abbrev pub content_of : Option Bytes → Bytes
content_of none = []
content_of (some bs) = bs

-- the lazy load of Read and Stream
unfoldable pub load : BytesResource → BytesResource
load r = record r { bytes = elim r.bytes [ none ↦ r.loader | some bs ↦ some bs ] }

-- Read behind the load: the whole buffer, or the clamped range
unfoldable pub read_loaded : Bytes → ℕ → ℕ → Bytes
read_loaded bs start end =
    let start' = if ltb (length bs) start then length bs else start in
    let stop = if ltb (length bs) (suc end) then length bs else suc end in
    if start == 0 && end == 0 then bs else slice bs start' stop

-- a nil buffer that the loader leaves empty is an error
unfoldable pub read_fresh : Bytes → ℕ → ℕ → Result Bytes
unfolding read_loaded
read_fresh bs start end =
    if length bs == 0 then err code_internal_server_error else ok (read_loaded bs start end)

unfoldable pub read : BytesResource → ℕ → ℕ → Result Bytes × BytesResource
unfolding load read_loaded read_fresh
read r start end = if ltb end start then (err code_requested_range_not_satisfiable, r) else (
  elim r.bytes [
    | none ↦ read_fresh (content_of r.loader) start end
    | some bs ↦ ok (read_loaded bs start end)
  ],
  load r,
)

-- Length reads the whole resource
unfoldable pub length_of : BytesResource → Result ℕ × BytesResource
unfolding read
length_of r = (elim (read r 0 0).0 [ ok bs ↦ ok (length bs) | err x ↦ err x ], (read r 0 0).1)

-- the bytes that are written, or a panic
unfoldable pub stream_loaded : Bytes → ℕ → ℕ → Run Bytes
stream_loaded bs start end =
    if start == 0 && end == 0
    then done bs
    else if ltb (length bs) (suc end)
    then panic
    else done (slice bs start (suc end))

unfoldable pub stream : BytesResource → ℕ → ℕ → Run (Result Bytes) × BytesResource
unfolding load stream_loaded
stream r start end =
    if ltb end start then (done (err code_requested_range_not_satisfiable), r) else (
      elim (stream_loaded (content_of (load r).bytes) start end) [
        | done bs ↦ done (ok bs)
        | panic ↦ panic
      ],
      load r,
    )
