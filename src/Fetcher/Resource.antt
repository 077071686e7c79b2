-- ===== src/Fetcher/Resource.antt =====
-- pkg/fetcher/resource.go: the Resource interface as its clients see it, and the error codes.
-- A range is two non-negative int64 offsets, both inclusive; the cause of an error and the names of
-- its constructors' arguments are left out.
use go_toolkit.Prelude.{ℕ, suc, ◌≤◌, ◌≡◌, ◌&&◌, ltb, ◌==◌, if◌then◌else◌, Bytes, slice}

pub data ResourceErrorCode : Type 0 where
  code_bad_request : ResourceErrorCode
  code_not_found : ResourceErrorCode
  code_forbidden : ResourceErrorCode
  code_service_unavailable : ResourceErrorCode
  code_insufficient_storage : ResourceErrorCode
  code_requested_range_not_satisfiable : ResourceErrorCode
  code_gateway_timeout : ResourceErrorCode
  code_internal_server_error : ResourceErrorCode
  offline : ResourceErrorCode
  cancelled : ResourceErrorCode

-- The values of the constants; those of net/http are its documented ones (StatusBadGateway is 502).
unfoldable pub code_value : ResourceErrorCode → ℕ
code_value code_bad_request = 502
code_value code_not_found = 404
code_value code_forbidden = 403
code_value code_service_unavailable = 503
code_value code_insufficient_storage = 507
code_value code_requested_range_not_satisfiable = 416
code_value code_gateway_timeout = 504
code_value code_internal_server_error = 500
code_value offline = 1001
code_value cancelled = 1002

-- ResourceError.HTTPStatus
unfoldable pub http_status : ResourceErrorCode → ℕ
unfolding code_value
http_status c = if ltb 999 (code_value c) then 500 else code_value c

-- `([]byte, *ResourceError)`, where one of the two is nil.
pub data Result {ℓ} (A : Type ℓ) : Type ℓ where
  ok : A → Result A
  err : ResourceErrorCode → Result A

-- The interface, with the methods that the caches call.
pub record Resource : Type 0 where
  pub length : Result ℕ
  pub read : ℕ → ℕ → Result Bytes

-- What the documentation of Read promises of a range: (0, 0) is the whole content, and a range is
-- clamped to the content.
abbrev pub range : Bytes → ℕ → ℕ → Bytes
range content start end = if start == 0 && end == 0 then content else slice content start (suc end)

-- The successful reads of a resource are ranges of its content.
abbrev pub Serves : Bytes → Resource → Type 0
Serves content r =
    (start end : ℕ) (bs : Bytes)
    → start ≤ end
    → r.read start end ≡ ok bs
    → bs ≡ range content start end

-- A result is the range of the content, or an error with which a read of the resource failed.
abbrev pub Answers : Bytes → Resource → ℕ → ℕ → Result Bytes → Type 0
Answers content r start end (ok bs) = bs ≡ range content start end
Answers content r start end (err x) = (a : ℕ) × (b : ℕ) × (r.read a b ≡ err x)

pub Serves-Answers :
    (content : Bytes) (r : Resource) (start end : ℕ) (x : Result Bytes)
    → Serves content r
    → start ≤ end
    → r.read start end ≡ x
    → Answers content r start end x
Serves-Answers content r start end (ok bs) serves se e = serves start end bs se e
Serves-Answers content r start end (err x) serves se e = (start, end, e)
