-- ===== src/Archive/Remote.antt =====
-- pkg/archive/remote.go: remoteZIPAdapter, an io.ReaderAt over ranged reads of a remote object. The
-- buffers of the callers are a store, since the adapter keeps a reference to one that it cached.
-- Thresholds and sizes are not negative. One goroutine's view; a time-out is a failing read.
use go_toolkit.Prelude.{
  ℕ, ◌+◌, ◌-◌, ◌*◌, min, Bool, true, false, ◌&&◌, Option, none, some, List, [], ◌∷◌, ◌++◌, ltb, leb,
  ◌==◌, if◌then◌else◌, Bytes, length, take, drop, get_or, replicate, slice,
}
use go_toolkit.Prelude.Int.{ℤ, pos, sub_ℕ}
use go_toolkit.Prelude.Panic.{Run, done, panic, ◌>>=◌, checked_slice}

pub record RemoteArchiveConfig : Type 0 where
  pub timeout : ℕ
  pub cache_all_threshold : ℕ
  pub cache_size_threshold : ℕ
  pub cache_count_threshold : ℕ

-- RemoteArchiveConfig.Empty
unfoldable pub is_empty : RemoteArchiveConfig → Bool
is_empty c =
    c.timeout == 0
    && c.cache_size_threshold == 0
    && c.cache_count_threshold == 0
    && c.cache_all_threshold == 0

-- the time-out is 60 seconds, in nanoseconds
abbrev pub default_remote_archive_config : RemoteArchiveConfig
default_remote_archive_config = record {
  timeout = 60_000_000_000;
  cache_all_threshold = 1_048_576;
  cache_size_threshold = 1_048_576;
  cache_count_threshold = 32;
}

-- RemoteArchiveReader: `none` is an error, else the bytes that the reader gives until it ends; a
-- negative length means up to the end. `first_read` is how many of them a first Read into 30 bytes
-- takes, or an error.
pub record RemoteArchiveReader : Type 0 where
  pub size : ℕ
  pub read_range : ℤ → ℤ → Option Bytes
  pub first_read : ℕ → Option ℕ

-- memory of the adapter, or a buffer of a caller
pub data Data : Type 0 where
  owned : Bytes → Data
  buffer : ℕ → Data

-- `none` stands for the header offset -1
pub record ReadRange : Type 0 where
  pub header_offset : Option ℕ
  pub offset : ℕ
  pub size : ℕ
  pub header : Bytes
  pub body : Data

pub record RemoteZipAdapter : Type 0 where
  pub rdr : RemoteArchiveReader
  pub zip_ready : Bool
  pub config : RemoteArchiveConfig
  pub cached_ranges : List ReadRange
  pub complete_bytes : Bytes
  pub zip_tail : Bytes
  pub zip_tail_size : ℕ

-- the callers' buffers
abbrev pub Store : Type 0
Store = ℕ → Bytes

abbrev pub contents : Store → Data → Bytes
contents s (owned bs) = bs
contents s (buffer b) = s b

-- `copy(p, bs)`, where `p` is buffer `b`
unfoldable pub fill : ℕ → Bytes → Store → Store
fill b bs s i = if i == b then take (length (s b)) bs ++ drop (length bs) (s b) else s i

-- what ReadAt returns: a count, with an error or without
pub data Outcome : Type 0 where
  read : ℕ → Outcome
  failed : ℕ → Outcome

abbrev pub Step : Type 0
Step = Outcome × RemoteZipAdapter × Store

unfoldable pub cache_all : RemoteZipAdapter → Bool
cache_all a = leb a.rdr.size a.config.cache_all_threshold

-- bytes.Reader.ReadAt on the complete copy
unfoldable pub serve_complete : RemoteZipAdapter → Store → ℕ → ℕ → Step
serve_complete a s b off =
    let len = length (s b) in
    let n = min len (length a.complete_bytes - off) in
    let s' = fill b (slice a.complete_bytes off (off + n)) s in
    if leb (length a.complete_bytes) off
    then (failed 0, a, s)
    else if ltb n len
    then (failed n, a, s')
    else (read n, a, s')

-- the branch of ReadAt that holds the object in memory; a short read leaves the unread rest zero
unfoldable pub read_complete : RemoteZipAdapter → Store → ℕ → ℕ → Step
read_complete a s b off =
    if length a.complete_bytes == 0
    then elim (a.rdr.read_range (pos 0) (pos a.rdr.size)) [
      | none ↦ (failed 0, a, s)
      | some bs ↦
          let got = take a.rdr.size bs in
          let a' = record a { complete_bytes = got ++ replicate (a.rdr.size - length got) 0 } in
          if ltb (length got) a.rdr.size
          then (failed (length got), a', s)
          else serve_complete a' s b off
    ]
    else serve_complete a s b off

-- the size of the tail, grown to include an offset before it
unfoldable pub tail_size_for : RemoteZipAdapter → ℕ → ℕ
tail_size_for a off =
    if ltb (off + a.zip_tail_size) a.rdr.size then a.rdr.size - off else a.zip_tail_size

-- the branch for the end of the file while the archive is opened
unfoldable pub read_tail : RemoteZipAdapter → Store → ℕ → ℕ → Run Step
read_tail a s b off =
    let len = length (s b) in
    let size = tail_size_for a off in
    let new_off = off + size - a.rdr.size in
    let tail = if ltb (off + a.zip_tail_size) a.rdr.size then [] else a.zip_tail in
    let a' = record a { zip_tail = tail; zip_tail_size = size } in
    if ltb 0 (length tail)
    then (checked_slice tail new_off (new_off + len) >>= λ piece.
        done (read len, a', fill b piece s))
    else elim (a.rdr.read_range (sub_ℕ a.rdr.size size) (pos a.rdr.size)) [
      | none ↦ done (failed 0, a', s)
      | some bs ↦
          if ltb (length bs) size
          then done (failed 0, a', s)
          else (checked_slice (take size bs) new_off (new_off + len) >>= λ piece.
              done (read len, record a' { zip_tail = take size bs }, fill b piece s))
    ]

-- a range is appended, and the oldest removed if there are enough; `[1:]` of no ranges panics
unfoldable pub add_range : ℕ → ReadRange → List ReadRange → Run (List ReadRange)
add_range count r rs =
    if leb count (length rs)
    then elim rs [ [] ↦ panic | _ ∷ rest ↦ done (rest ++ r ∷ []) ]
    else done (rs ++ r ∷ [])

-- cacheHeader
unfoldable pub cache_header : ℕ → ℕ → Bytes → List ReadRange → Run (List ReadRange)
cache_header count off header =
    add_range count
      (record { header_offset = some off; offset = 0; size = 0; header = header; body = owned [] })

unfoldable pub has_same_range : ℕ → ℕ → List ReadRange → Bool
has_same_range off size [] = false
has_same_range off size (r ∷ rs) =
    if r.offset == off && r.size == size then true else has_same_range off size rs

unfoldable pub header_at : ℕ → Option ℕ → Bool
header_at off none = false
header_at off (some o) = o == off

unfoldable pub find_header : ℕ → List ReadRange → Option Bytes
find_header off [] = none
find_header off (r ∷ rs) =
    if header_at off r.header_offset then some r.header else find_header off rs

unfoldable pub find_range : ℕ → ℕ → List ReadRange → Option ReadRange
find_range off size [] = none
find_range off size (r ∷ rs) =
    if leb r.offset off && ltb off (r.offset + r.size) && leb (off + size) (r.offset + r.size)
    then some r
    else find_range off size rs

-- binary.LittleEndian
unfoldable pub uint16 : Bytes → ℕ → ℕ
uint16 bs i = get_or bs i 0 + 256 * get_or bs (i + 1) 0

unfoldable pub uint32 : Bytes → ℕ → ℕ
uint32 bs i = uint16 bs i + 65536 * uint16 bs (i + 2)

-- "PK\x03\x04"
unfoldable pub has_signature : Bytes → Bool
has_signature h =
    get_or h 0 0 == b'P' && get_or h 1 0 == b'K' && get_or h 2 0 == 3 && get_or h 3 0 == 4
