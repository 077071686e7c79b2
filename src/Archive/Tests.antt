-- ===== src/Archive/Tests.antt =====
-- pkg/archive/remote.go: adapters at which the theorems apply.
use go_toolkit.Prelude.{◌≡◌, refl, inr, true, false, some, [], ◌∷◌, Bytes, replicate, slice, arith}
use go_toolkit.Prelude.Panic.{Ends}
use go_toolkit.Archive.Remote.{
  RemoteArchiveConfig, RemoteArchiveReader, RemoteZipAdapter, Store, fill, read, failed, cache_all,
  read_complete,
}
use go_toolkit.Archive.ReadAt.{read_header}
use go_toolkit.Archive.ReadAt.Bounds.{KeepsWithin, read_header-KeepsWithin}
use go_toolkit.Archive.ReadAt.Complete.{read_complete-slice, short_copy_is_served}

abbrev file : Bytes
file = 1 ∷ 2 ∷ 3 ∷ 4 ∷ 5 ∷ []

-- a reader that gives the same bytes, whatever it is asked for
abbrev gives : Bytes → RemoteArchiveReader
gives bs = record {
  size = 5;
  read_range = λ offset length. some bs;
  first_read = λ offset. some 30;
}

abbrev whole_file : RemoteArchiveConfig
whole_file = record {
  timeout = 1;
  cache_all_threshold = 100;
  cache_size_threshold = 100;
  cache_count_threshold = 2;
}

abbrev no_ranges : RemoteArchiveConfig
no_ranges = record whole_file { cache_all_threshold = 0; cache_count_threshold = 0 }

abbrev adapter : RemoteArchiveConfig → Bytes → RemoteZipAdapter
adapter config bs = record {
  rdr = gives bs;
  zip_ready = true;
  config = config;
  cached_ranges = [];
  complete_bytes = [];
  zip_tail = [];
  zip_tail_size = 0;
}

abbrev two_bytes : Store
two_bytes b = 0 ∷ 0 ∷ []

read_complete-slice_example : read_complete (adapter whole_file file) two_bytes 0 3 ≡ (
  read 2,
  record (adapter whole_file file) { complete_bytes = file },
  fill 0 (slice file 3 5) two_bytes,
)
read_complete-slice_example =
    read_complete-slice file (adapter whole_file file) two_bytes 0 3 refl (omega arith)
      (omega arith) (inr (refl, refl))

abbrev short : RemoteZipAdapter
short = adapter whole_file (1 ∷ 2 ∷ [])

short_copy_is_served_example :
    ((read_complete short two_bytes 0 0).0 ≡ failed 2)
    × (read_complete (read_complete short two_bytes 0 0).1 two_bytes 1 3 ≡ (
      read 2,
      (read_complete short two_bytes 0 0).1,
      fill 1 (slice (1 ∷ 2 ∷ replicate 3 0) 3 5) two_bytes,
    ))
short_copy_is_served_example =
    short_copy_is_served short two_bytes two_bytes 0 1 0 3 (1 ∷ 2 ∷ []) refl refl (omega arith)
      (omega arith) (omega arith)

too_large : cache_all (adapter no_ranges file) ≡ false
unfolding cache_all
too_large = refl

read_header-KeepsWithin_example :
    Ends KeepsWithin (read_header (adapter whole_file (replicate 40 7)) two_bytes 0 0)
read_header-KeepsWithin_example =
    read_header-KeepsWithin (adapter whole_file (replicate 40 7)) two_bytes 0 0 (omega arith)
      (omega arith)
