-- ===== src/Fetcher/Transforming.antt =====
-- pkg/fetcher/resource.go: TransformingResource, a resource whose whole content is transformed when
-- it is read. An empty buffer and a nil one are not told apart. The writer of Stream accepts all
-- that it is given.
pub mod Transformed
use go_toolkit.Prelude.{
  ℕ, suc, Bool, ◌&&◌, Option, none, some, [], ltb, ◌==◌, if◌then◌else◌, Bytes, length,
}
use go_toolkit.Prelude.Panic.{Run, done, panic, ◌>>=◌, checked_slice}
use go_toolkit.Fetcher.Resource.{
  Resource, Result, ok, err, ResourceErrorCode, code_internal_server_error,
}

pub record TransformingResource : Type 0 where
  pub resource : Resource
  pub transform : Bytes → Bytes
  pub cache_bytes : Bool
  pub bytes : Bytes

unfoldable pub new_transforming_resource : Resource → Bool → (Bytes → Bytes) → TransformingResource
new_transforming_resource resource cache_bytes transform = record {
  resource = resource;
  transform = transform;
  cache_bytes = cache_bytes;
  bytes = [];
}

-- the method `bytes`
unfoldable pub load : TransformingResource → Result Bytes × TransformingResource
load r = if ltb 0 (length r.bytes) then (ok r.bytes, r) else elim (r.resource.read 0 0) [
  | err x ↦ (err x, r)
  | ok bin ↦
      let bytes = r.transform bin in
      if length bytes == 0
      then (err code_internal_server_error, r)
      else (ok bytes, if r.cache_bytes then record r { bytes = bytes } else r)
]

-- the clamped range of the transformed content; it is not tested that its ends are in order
unfoldable pub clamp : Bytes → ℕ → ℕ → Run Bytes
clamp bytes start end =
    let from = if ltb (length bytes) start then length bytes else start in
    let stop = if ltb (length bytes) (suc end) then length bytes else suc end in
    if start == 0 && end == 0 then done bytes else checked_slice bytes from stop

-- Length
unfoldable pub length_of : TransformingResource → Result ℕ
length_of r = if r.cache_bytes then ok (length r.bytes) else r.resource.length

-- Read
unfoldable pub read : TransformingResource → ℕ → ℕ → Run (Result Bytes) × TransformingResource
read r start end = (
  elim (load r).0 [
    | err x ↦ done (err x)
    | ok bytes ↦ clamp bytes start end >>= λ part. done (ok part)
  ],
  (load r).1,
)

-- what Stream has written, and the error that it returns
pub record Sent : Type 0 where
  pub written : Bytes
  pub failure : Option ResourceErrorCode

-- Stream; Other makes an error of a nil cause too
unfoldable pub stream : TransformingResource → ℕ → ℕ → Run Sent × TransformingResource
stream r start end = (
  elim (load r).0 [
    | err x ↦ done (record { written = []; failure = some x })
    | ok bytes ↦ clamp bytes start end >>= λ part.
        done (record { written = part; failure = some code_internal_server_error })
  ],
  (load r).1,
)
