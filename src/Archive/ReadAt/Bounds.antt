-- ===== src/Archive/ReadAt/Bounds.antt =====
-- pkg/archive/remote.go: how many ranges the adapter holds.
use go_toolkit.Prelude.{
  ℕ, ◌+◌, ◌-◌, ◌≤◌, ◌<◌, inl, inr, not, ◌&&◌, Option, none, some, List, [], ◌∷◌, ◌++◌, ltb, leb,
  ◌==◌, if◌then◌else◌, Bytes, length, length-append, take, drop, replicate, arith, Bool-cases,
  leb→le, leb→lt, Option-cases,
}
use go_toolkit.Prelude.Int.{pos, negsuc}
use go_toolkit.Prelude.Panic.{done, panic, ◌>>=◌, Ends, Ends-bind}
use go_toolkit.Archive.Remote.{
  RemoteArchiveConfig, ReadRange, RemoteZipAdapter, Store, fill, failed, Step, add_range,
  cache_header, has_same_range, find_header, has_signature, uint16, uint32,
}
use go_toolkit.Archive.ReadAt.{precache, keep_read, read_fresh_header, read_header}

-- at most as many ranges as the threshold
abbrev pub Within : ℕ → List ReadRange → Type 0
Within count rs = length rs ≤ count

abbrev pub WithinIf : ℕ → Option (List ReadRange) → Type 0
WithinIf count none = Unit
WithinIf count (some rs) = Within count rs

evicted :
    (count : ℕ) (r : ReadRange) (rs : List ReadRange)
    → Within count rs
    → 0 < length rs
    → Ends (Within count) (elim rs [ [] ↦ panic | _ ∷ rest ↦ done (rest ++ r ∷ []) ])
evicted count r [] h p = absurd (omega arith)
evicted count r (x ∷ rest) h p = omega (arith, length-append rest (r ∷ []))

add_range-Ends :
    (count : ℕ) (r : ReadRange) (rs : List ReadRange)
    → 0 < count
    → Within count rs
    → Ends (Within count) (add_range count r rs)
unfolding add_range
add_range-Ends count r rs p h = elim (Bool-cases (leb count (length rs))) [
  | inr room ↦ rw room (omega (arith, length-append rs (r ∷ []), leb→lt _ _ room))
  | inl full ↦ rw full (evicted count r rs h (omega (arith, leb→le _ _ full)))
]

module _ (c : RemoteArchiveConfig) (p : 0 < c.cache_count_threshold) (off : ℕ)
    (header : Bytes) where
  some_range-Ends :
      (r : ReadRange) (rs : List ReadRange)
      → Within c.cache_count_threshold rs
      → Ends
          (WithinIf c.cache_count_threshold)
          (add_range c.cache_count_threshold r rs >>= λ rs'. done (some rs'))
  some_range-Ends r rs h =
      Ends-bind (Within c.cache_count_threshold) (WithinIf c.cache_count_threshold) _ _
        (add_range-Ends c.cache_count_threshold r rs p h) λ rs' h'. h'

  precache-Ends :
      (rest : Bytes) (rs : List ReadRange)
      → Within c.cache_count_threshold rs
      → Ends (WithinIf c.cache_count_threshold) (precache c off header rest rs)
  unfolding precache cache_header
  precache-Ends rest rs h =
      let compressed_size = uint32 header 18 in
      let uncompressed_size = uint32 header 22 in
      let body_size = if uint16 header 8 == 0 then uncompressed_size else compressed_size in
      let useless = uint16 header 28 + uint16 header 26 in
      elim (Bool-cases (not (has_signature header))) [
        | inl a ↦ rw a h
        | inr a ↦ elim (Bool-cases (compressed_size == 0 && uncompressed_size == 0)) [
          | inl b ↦ rw (a, b) (some_range-Ends _ rs h)
          | inr b ↦
              elim (Bool-cases (compressed_size == 0xffffffff && uncompressed_size == 0xffffffff)) [
                | inl d ↦ rw (a, b, d) (some_range-Ends _ rs h)
                | inr d ↦ elim (Bool-cases (ltb c.cache_size_threshold body_size)) [
                  | inl e ↦ rw (a, b, d, e) (some_range-Ends _ rs h)
                  | inr e ↦ elim (Bool-cases (has_same_range (off + 30 + useless) body_size rs)) [
                    | inl f ↦ rw (a, b, d, e, f) h
                    | inr f ↦ elim (Bool-cases (ltb (length rest) (body_size + useless))) [
                      | inl g ↦ rw (a, b, d, e, f, g) tt
                      | inr g ↦ rw (a, b, d, e, f, g) (some_range-Ends _ rs h)
                    ]
                  ]
                ]
              ]
        ]
      ]

-- the outcome leaves at most as many ranges as the threshold
abbrev pub KeepsWithin : Step → Type 0
KeepsWithin (out, a, s) = Within a.config.cache_count_threshold a.cached_ranges

keep_read-Ends :
    (a : RemoteZipAdapter) (s : Store) (b off n : ℕ)
    → 0 < a.config.cache_count_threshold
    → Within a.config.cache_count_threshold a.cached_ranges
    → Ends KeepsWithin (keep_read a s b off n)
unfolding keep_read
keep_read-Ends a s b off n p h =
    elim (Bool-cases (has_same_range off (length (s b)) a.cached_ranges)) [
      | inl same ↦ rw same h
      | inr other ↦ rw other (
          Ends-bind (Within a.config.cache_count_threshold) KeepsWithin _ _
            (add_range-Ends a.config.cache_count_threshold _ a.cached_ranges p h) λ rs h'. h')
    ]

finished-Ends :
    (a : RemoteZipAdapter) (s : Store) (b off n : ℕ) (header : Bytes)
    (kept : Option (List ReadRange))
    → 0 < a.config.cache_count_threshold
    → Within a.config.cache_count_threshold a.cached_ranges
    → WithinIf a.config.cache_count_threshold kept
    → Ends KeepsWithin (elim kept [
      | none ↦ done (failed 0, a, s)
      | some rs ↦ keep_read (record a { cached_ranges = rs }) (fill b header s) b off n
    ])
finished-Ends a s b off n header none p h hk = h
finished-Ends a s b off n header (some rs) p h hk =
    keep_read-Ends (record a { cached_ranges = rs }) _ b off n p hk

read_fresh_header-Ends :
    (a : RemoteZipAdapter) (s : Store) (b off : ℕ) (bs : Bytes) (n : ℕ)
    → 0 < a.config.cache_count_threshold
    → Within a.config.cache_count_threshold a.cached_ranges
    → Ends KeepsWithin (read_fresh_header a s b off bs n)
unfolding read_fresh_header
read_fresh_header-Ends a s b off bs n p h =
    let header = take n bs ++ replicate (30 - n) 0 in
    Ends-bind (WithinIf a.config.cache_count_threshold) KeepsWithin _ _
      (precache-Ends a.config p off header (drop n bs) a.cached_ranges h)
      λ kept hk. finished-Ends a s b off n header kept p h hk

-- If the threshold for the number of ranges is positive and not exceeded, a read of a header does
-- not panic, and whatever it caches, evicts or fails with, it leaves at most that many ranges.
pub read_header-KeepsWithin :
    (a : RemoteZipAdapter) (s : Store) (b off : ℕ)
    → 0 < a.config.cache_count_threshold
    → length a.cached_ranges ≤ a.config.cache_count_threshold
    → Ends KeepsWithin (read_header a s b off)
unfolding read_header
read_header-KeepsWithin a s b off p h = elim (Option-cases (find_header off a.cached_ranges)) [
  | inr (header, known) ↦ rw (read_header, known) h
  | inl unknown ↦ elim (Option-cases (a.rdr.read_range (pos off) (negsuc 0))) [
    | inl broken ↦ rw (read_header, unknown, broken) h
    | inr (bs, opened) ↦ elim (Option-cases (a.rdr.first_read off)) [
      | inl broken ↦ rw (read_header, unknown, opened, broken) h
      | inr (n, taken) ↦
          rw (read_header, unknown, opened, taken) (read_fresh_header-Ends a s b off bs n p h)
    ]
  ]
]
