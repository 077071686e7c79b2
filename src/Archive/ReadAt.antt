-- ===== src/Archive/ReadAt.antt =====
-- pkg/archive/remote.go: ReadAt of remoteZIPAdapter, once the archive is open and in all its modes,
-- and the operations around it.
pub mod Complete
pub mod Bounds
use go_toolkit.Prelude.{
  ℕ, ◌+◌, ◌-◌, Bool, true, false, not, ◌&&◌, Option, none, some, List, [], ◌∷◌, ◌++◌, map, ltb, leb,
  ◌==◌, if◌then◌else◌, Bytes, length, take, drop, replicate, slice,
}
use go_toolkit.Prelude.Int.{ℤ, pos, negsuc}
use go_toolkit.Prelude.Panic.{Run, done, panic, ◌>>=◌, checked_slice}
use go_toolkit.Archive.Remote.{
  RemoteArchiveConfig, is_empty, default_remote_archive_config, RemoteArchiveReader, owned, buffer,
  ReadRange, RemoteZipAdapter, Store, contents, fill, read, failed, Step, cache_all, read_complete,
  read_tail, add_range, cache_header, has_same_range, find_header, find_range, uint16, uint32,
  has_signature,
}

-- what ReadAt caches of an entry whose local file header it has read; `rest` is what the reader
-- gives behind the header, and `none` the error of a short one
unfoldable pub precache :
    RemoteArchiveConfig → ℕ → Bytes → Bytes → List ReadRange → Run (Option (List ReadRange))
precache c off header rest rs =
    let compressed_size = uint32 header 18 in
    let uncompressed_size = uint32 header 22 in
    let body_size = if uint16 header 8 == 0 then uncompressed_size else compressed_size in
    let useless = uint16 header 28 + uint16 header 26 in
    let body_offset = off + 30 + useless in
    let only_header =
      cache_header c.cache_count_threshold off header rs >>= λ rs'. done (some rs') in
    if not (has_signature header)
    then done (some rs)
    else if compressed_size == 0 && uncompressed_size == 0
    then only_header
    else if compressed_size == 0xffffffff && uncompressed_size == 0xffffffff
    then only_header
    else if ltb c.cache_size_threshold body_size
    then only_header
    else if has_same_range body_offset body_size rs
    then done (some rs)
    else if ltb (length rest) (body_size + useless)
    then done none
    else (add_range c.cache_count_threshold
          (record {
            header_offset = some off;
            offset = body_offset;
            size = body_size;
            header = header;
            body = owned (slice rest useless (useless + body_size));
          })
          rs
        >>= λ rs'. done (some rs'))

-- the end of ReadAt: the caller's buffer `b` becomes a cached range
unfoldable pub keep_read : RemoteZipAdapter → Store → ℕ → ℕ → ℕ → Run Step
keep_read a s b off n =
    let size = length (s b) in
    if has_same_range off size a.cached_ranges
    then done (read n, a, s)
    else (add_range a.config.cache_count_threshold
          (record {
            header_offset = none;
            offset = off;
            size = size;
            header = replicate 30 0;
            body = buffer b;
          })
          a.cached_ranges
        >>= λ rs. done (read n, record a { cached_ranges = rs }, s))

-- behind the first read of a header, which took `n` bytes
unfoldable pub read_fresh_header : RemoteZipAdapter → Store → ℕ → ℕ → Bytes → ℕ → Run Step
read_fresh_header a s b off bs n =
    let header = take n bs ++ replicate (30 - n) 0 in
    precache a.config off header (drop n bs) a.cached_ranges >>= λ kept. elim kept [
      | none ↦ done (failed 0, a, s)
      | some rs ↦ keep_read (record a { cached_ranges = rs }) (fill b header s) b off n
    ]

-- the branch for a read of 30 bytes
unfoldable pub read_header : RemoteZipAdapter → Store → ℕ → ℕ → Run Step
read_header a s b off = elim (find_header off a.cached_ranges) [
  | some header ↦ done (read 30, a, fill b header s)
  | none ↦ elim (a.rdr.read_range (pos off) (negsuc 0)) [
    | none ↦ done (failed 0, a, s)
    | some bs ↦ elim (a.rdr.first_read off) [
      | none ↦ done (failed 0, a, s)
      | some n ↦ read_fresh_header a s b off bs n
    ]
  ]
]

-- the branch for all other reads
unfoldable pub read_body : RemoteZipAdapter → Store → ℕ → ℕ → Run Step
read_body a s b off =
    let size = length (s b) in
    elim (find_range off size a.cached_ranges) [
      | some rng ↦
          checked_slice (contents s rng.body) (off - rng.offset) (off - rng.offset + size)
          >>= λ piece. done (read size, a, fill b piece s)
      | none ↦ elim (a.rdr.read_range (pos off) (pos size)) [
        | none ↦ done (failed 0, a, s)
        | some bs ↦
            if ltb (length bs) size
            then done (failed (length bs), a, fill b bs s)
            else if ltb a.config.cache_size_threshold size
            then done (read size, a, fill b bs s)
            else keep_read a (fill b bs s) b off size
      ]
    ]

unfoldable pub read_ready : RemoteZipAdapter → Store → ℕ → ℕ → Run Step
read_ready a s b off =
    if length (s b) == 30
      && ltb 0 a.config.cache_count_threshold
      && ltb 0 a.config.cache_size_threshold
    then read_header a s b off
    else read_body a s b off

-- ReadAt into buffer `b`
unfoldable pub read_at : RemoteZipAdapter → Store → ℕ → ℤ → Run Step
read_at a s b (negsuc _) = done (failed 0, a, s)
read_at a s b (pos off) =
    if length (s b) == 0
    then done (failed 0, a, s)
    else if cache_all a
    then done (read_complete a s b off)
    else if not a.zip_ready
    then read_tail a s b off
    else read_ready a s b off

-- makeReady
unfoldable pub make_ready : RemoteZipAdapter → RemoteZipAdapter
make_ready a = record a { zip_ready = true; zip_tail = [] }

-- a zeroed readRange, which Close leaves in place of each
abbrev pub zero_range : ReadRange
zero_range = record {
  header_offset = some 0;
  offset = 0;
  size = 0;
  header = replicate 30 0;
  body = owned [];
}

-- Close
unfoldable pub close : RemoteZipAdapter → RemoteZipAdapter
close a = record a { cached_ranges = map (λ _. zero_range) a.cached_ranges }

-- newRemoteZIPAdapter
unfoldable pub new_remote_zip_adapter : RemoteArchiveReader → RemoteArchiveConfig → RemoteZipAdapter
new_remote_zip_adapter rdr config = record {
  rdr = rdr;
  zip_ready = false;
  config = if is_empty config then default_remote_archive_config else config;
  cached_ranges = [];
  complete_bytes = [];
  zip_tail = [];
  zip_tail_size = 66_560;
}
