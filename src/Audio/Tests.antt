-- ===== src/Audio/Tests.antt =====
-- pkg/parser/audio: a content of ten bytes in blocks of four, at which the theorems apply.
use go_toolkit.Prelude.{
  ℕ, zero, suc, ◌≤◌, ◌≡◌, refl, sym, ap, ◌⊎◌, inr, true, false, Option, none, some, [], ◌∷◌, ◌++◌,
  Bytes, length, take-all, slice, arith,
}
use go_toolkit.Prelude.Int.{pos}
use go_toolkit.Prelude.Assoc.{lookup, insert}
use go_toolkit.Prelude.Panic.{done, panic}
use go_toolkit.Fetcher.Resource.{Resource, Result, ok, err, code_not_found, range, Serves, Answers}
use go_toolkit.Audio.ReadCache as ReadCache
use go_toolkit.Audio.ReadCache.{ReadCache, Blocks, has_block}
use go_toolkit.Audio.ReadCache.Blocks.{IsCached}
use go_toolkit.Audio.ReadCache.Blocks as Blocks
use go_toolkit.Audio.ReadCache.Reads.{IsBlockRange}
use go_toolkit.Audio.ReadCache.Contract.{read-Answers}
use go_toolkit.Audio.RetainedCache.{RetainedCache, prefix, prefix_loop}
use go_toolkit.Audio.RetainedCache as RetainedCache
use go_toolkit.Audio.RetainedCache.Slice as Slice
use go_toolkit.Audio.RetainedCache.Slice.{Holds, Misses, slice_cases}
use go_toolkit.Audio.RetainedCache.Prefix.{IsCachedRun, prefix-IsCachedRun}
use go_toolkit.Audio.CachedResource.{CachedResource, Written, Streamed, normalize, stream}
use go_toolkit.Audio.CachedResource as CachedResource
use go_toolkit.Audio.CachedResource.Reads.{cached_read-Answers, cached_read-past_panics}
use go_toolkit.Audio.CachedResource.Streams.{Writes, StreamsRange, Delivers, stream-Delivers}

abbrev song : Bytes
song = 1 ∷ 2 ∷ 3 ∷ 4 ∷ 5 ∷ 6 ∷ 7 ∷ 8 ∷ 9 ∷ 10 ∷ []

abbrev honest : Resource
honest = record { length = ok 10; read = λ start end. ok (range song start end) }

abbrev failing : Resource
failing = record { length = err code_not_found; read = λ start end. err code_not_found }

honest-Serves : Serves song honest
honest-Serves start end bs se e = ap (λ r. elim r [ ok b ↦ b | err x ↦ [] ]) (sym e)

abbrev fresh : ReadCache
fresh = record { resource = honest; size = pos 10; block_size = 4; retain = true; blocks = [] }

fresh-IsValid : Blocks.IsValid song fresh
unfolding lookup
fresh-IsValid = record {
  positive = omega arith;
  sized = λ _. refl;
  cached = λ b blk e. absurd (ground (arith, e));
}

read-Answers_example :
    Answers song honest 2 6 (ReadCache.read fresh 2 6).0
    × Blocks.IsValid song (ReadCache.read fresh 2 6).1
read-Answers_example = read-Answers song fresh 2 6 fresh-IsValid honest-Serves (omega arith)

abbrev all_blocks : Blocks
all_blocks = (0, 1 ∷ 2 ∷ 3 ∷ 4 ∷ []) ∷ (1, 5 ∷ 6 ∷ 7 ∷ 8 ∷ []) ∷ (2, 9 ∷ 10 ∷ []) ∷ []

abbrev found_block : Option Bytes → Bytes
found_block none = []
found_block (some blk) = blk

all_blocks-IsCached : IsCached song 4 all_blocks
unfolding lookup slice
all_blocks-IsCached zero blk e = ap found_block (sym e)
all_blocks-IsCached (suc zero) blk e = ap found_block (sym e)
all_blocks-IsCached (suc (suc zero)) blk e = ap found_block (sym e)
all_blocks-IsCached (suc (suc (suc b))) blk e = absurd (ground (arith, e))

abbrev loaded : ReadCache
loaded = record fresh { resource = failing; blocks = all_blocks }

loaded-IsValid : Blocks.IsValid song loaded
loaded-IsValid = record { positive = omega arith; sized = λ _. refl; cached = all_blocks-IsCached }

all_blocks-has : (j : ℕ) → 0 ≤ j → j ≤ 2 → has_block all_blocks j ≡ true
unfolding has_block lookup
all_blocks-has zero lo hi = refl
all_blocks-has (suc zero) lo hi = refl
all_blocks-has (suc (suc zero)) lo hi = refl
all_blocks-has (suc (suc (suc j))) lo hi = absurd (omega arith)

abbrev part : IsBlockRange loaded 2 8
part = (omega arith, omega arith, omega arith)

first_read : (ReadCache.read fresh 2 8).0 ≡ ok (3 ∷ 4 ∷ 5 ∷ 6 ∷ 7 ∷ 8 ∷ 9 ∷ [])
unfolding ReadCache.read ReadCache.read_blocks ReadCache.fetch ReadCache.copy_out ReadCache.gather
    ReadCache.missing_run ReadCache.store_run ReadCache.block_part ReadCache.read_run
    ReadCache.cut_block ReadCache.block_at has_block lookup insert slice
first_read = refl

abbrev kept : RetainedCache
kept = record { size = pos 10; block_size = 4; blocks = all_blocks }

kept-IsValid : Slice.IsValid song kept
kept-IsValid = record { positive = omega arith; sized = λ _. refl; cached = all_blocks-IsCached }

slice_cases_example :
    (Holds kept 0 2 × (RetainedCache.slice kept 2 20 ≡ done (some (slice song 2 10))))
    ⊎ (Misses kept 0 2 × (RetainedCache.slice kept 2 20 ≡ done none))
slice_cases_example = slice_cases song kept 2 20 kept-IsValid (omega arith) (omega arith)

prefix-IsCachedRun_example : IsCachedRun song kept 5 9 (prefix kept 5 20)
prefix-IsCachedRun_example =
    prefix-IsCachedRun song kept 5 20 kept-IsValid (omega arith) (omega arith)

abbrev served : CachedResource
served = record { resource = honest; cache = kept }

cached_read-Answers_example :
    (x : Result Bytes) × (CachedResource.read served 2 20 ≡ done x) × Answers song honest 2 20 x
cached_read-Answers_example =
    cached_read-Answers song served 2 20 kept-IsValid honest-Serves (omega arith)
      (inr (omega arith))

cached_read-past_panics_example : CachedResource.read served 20 21 ≡ panic
cached_read-past_panics_example =
    cached_read-past_panics served 20 21 (omega arith) (omega arith) (omega arith) (omega arith)

abbrev write_all : Bytes → Bytes → Written Bytes
write_all w p = record { writer = w ++ p; taken = length p; failed = false }

abbrev stream_all : Bytes → ℕ → ℕ → Streamed Bytes
stream_all w start end = record {
  writer = w ++ range song start end;
  count = pos (length (range song start end));
  failure = none;
}

write_all-Writes : Writes (λ w. w) write_all
write_all-Writes w p =
    (ap (◌++◌ w) (sym (take-all (length p) p (omega arith))), omega arith, λ _. refl)

stream_all-StreamsRange : StreamsRange (λ w. w) song stream_all
stream_all-StreamsRange w start end se e = (refl, refl)

served_without_error : (stream write_all stream_all served [] 5 20).failure ≡ none
unfolding stream normalize prefix prefix_loop slice lookup
served_without_error = refl

stream-Delivers_example :
    Delivers (λ w. w) [] (range song 5 20) (stream write_all stream_all served [] 5 20)
stream-Delivers_example =
    stream-Delivers (λ w. w) write_all stream_all song served [] 5 20 write_all-Writes
      stream_all-StreamsRange kept-IsValid (omega arith) (omega arith) served_without_error
