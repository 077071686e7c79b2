-- ===== src/Audio/ReadCache/Fetching.antt =====
-- pkg/parser/audio/readcache.go: fetch leaves every block of its range in the map, unless a read of
-- the resource fails.
use go_toolkit.Prelude.{
  ℕ, zero, suc, ◌+◌, ◌-◌, ◌*◌, ◌≤◌, ◌<◌, ◌≡◌, refl, ap, ◌∙◌, ◌⊎◌, inl, inr, true, false, Option,
  none, some, ltb, ltb→le, ltb→lt, Bytes, length, arith, Bool-cases,
}
use go_toolkit.Prelude.Int.{pos_part}
use go_toolkit.Fetcher.Resource.{Result, ok, err, ResourceErrorCode, Serves}
use go_toolkit.Audio.ReadCache.{
  ReadCache, Blocks, missing_run, store_run, read_run, has_block, fetch,
}
use go_toolkit.Audio.ReadCache.Blocks.{
  IsCached, store_run-IsCached, has_block-store_run, read_run-Covers,
}

missing_run_bounds :
    (n : ℕ) (m : Blocks) (b : ℕ) → (b ≤ missing_run n m b) × (missing_run n m b ≤ b + n)
unfolding missing_run
missing_run_bounds zero m b = omega arith
missing_run_bounds (suc n) m b = ground (arith, missing_run_bounds n m (suc b))

-- a run that begins at a missing block holds that block
missing_run_grows :
    (n : ℕ) (m : Blocks) (b : ℕ) → has_block m b ≡ false → b < missing_run (suc n) m b
unfolding missing_run
missing_run_grows n m b h = ground (arith, missing_run_bounds n m (suc b))

mul_mono : (i n d : ℕ) → i ≤ n → i * d ≤ n * d
mul_mono i n d h = grind arith

Result-cases :
    {A : Type 0} (r : Result A) → ((a : A) × (r ≡ ok a)) ⊎ ((x : ResourceErrorCode) × (r ≡ err x))
Result-cases (ok a) = inl (a, refl)
Result-cases (err x) = inr (x, refl)

pub record Fetched (content : Bytes) (c : ReadCache) (m : Blocks) (b last : ℕ)
    (r : Option ResourceErrorCode × Blocks) : Type 0 where
  pub cached : IsCached content c.block_size r.1
  pub kept : (j : ℕ) → has_block m j ≡ true → has_block r.1 j ≡ true
  pub complete : r.0 ≡ none → (j : ℕ) → b ≤ j → j ≤ last → has_block r.1 j ≡ true
  pub failed :
      (x : ResourceErrorCode)
      → r.0 ≡ some x
      → (start : ℕ) × (end : ℕ) × (c.resource.read start end ≡ err x)

module _ (content : Bytes) (c : ReadCache) (serves : Serves content c.resource)
    (p : 0 < c.block_size) (sized : pos_part c.size ≡ length content) (last : ℕ)
    (inside : last * c.block_size < length content) where
  -- what fetch leaves when a read of a run fails
  Fetched-stopped :
      (m : Blocks) (b stop : ℕ) (x : ResourceErrorCode)
      → IsCached content c.block_size m
      → read_run c b stop ≡ err x
      → Fetched content c m b last (some x, m)
  unfolding read_run
  Fetched-stopped m b stop x cached failure = record {
    cached = cached;
    kept = λ j h. h;
    complete = λ e. cc;
    failed = λ y e. let same : x ≡ y = cc in (_, _, failure ∙ ap err same);
  }

  -- a block that is there is passed over
  Fetched-skipped :
      (m : Blocks) (b : ℕ) (r : Option ResourceErrorCode × Blocks)
      → has_block m b ≡ true
      → Fetched content c m (suc b) last r
      → Fetched content c m b last r
  Fetched-skipped m b r there rest = record {
    cached = rest.cached;
    kept = rest.kept;
    complete = λ e j lo hi. elim (Bool-cases (ltb b j)) [
      | inl later ↦ rest.complete e j (ltb→lt b j later) hi
      | inr now ↦
          let same : b ≡ j = omega (arith, ltb→le b j now) in rw (← same) (rest.kept b there)
    ];
    failed = rest.failed;
  }

  -- a run that is read and stored
  Fetched-stored :
      (m : Blocks) (b stop : ℕ) (bs : Bytes) (r : Option ResourceErrorCode × Blocks)
      → b ≤ stop
      → Fetched content c (store_run c.block_size b bs 0 (stop - b) m) stop last r
      → Fetched content c m b last r
  Fetched-stored m b stop bs r grows rest = record {
    cached = rest.cached;
    kept =
        λ j h. rest.kept j (ground (arith, has_block-store_run c.block_size b bs 0 (stop - b) m j));
    complete = λ e j lo hi. elim (Bool-cases (ltb j stop)) [
      | inl run ↦
          rest.kept j (ground (arith, has_block-store_run c.block_size b bs 0 (stop - b) m j))
      | inr later ↦ rest.complete e j (ltb→le _ _ later) hi
    ];
    failed = rest.failed;
  }

  pub fetch-Fetched :
      (n : ℕ) (m : Blocks) (b : ℕ)
      → suc last - b ≤ n
      → IsCached content c.block_size m
      → Fetched content c m b last (fetch n c m b last)
  unfolding fetch
  fetch-Fetched zero m b enough cached = record {
    cached = cached;
    kept = λ j h. h;
    complete = λ _ j lo hi. absurd (omega arith);
    failed = λ x e. cc;
  }
  fetch-Fetched (suc n) m b enough cached = elim (Bool-cases (ltb last b)) [
    | inl over ↦ rw over (record {
      cached = cached;
      kept = λ j h. h;
      complete = λ _ j lo hi. absurd (ground arith);
      failed = λ x e. cc;
    })
    | inr within ↦ rw within (elim (Bool-cases (has_block m b)) [
      | inl there ↦
          rw there (Fetched-skipped m b _ there (fetch-Fetched n m (suc b) (omega arith) cached))
      | inr missing ↦ rw missing (run missing (ltb→le last b within) (fetch-Fetched n))
    ])
  ]
    where
      stop : ℕ
      stop = missing_run (suc last - b) m b

      run :
          has_block m b ≡ false
          → b ≤ last
          → ((m' : Blocks) (b' : ℕ)
              → suc last - b' ≤ n
              → IsCached content c.block_size m'
              → Fetched content c m' b' last (fetch n c m' b' last))
          → Fetched content c m b last (elim (read_run c b stop) [
            | ok bs ↦ fetch n c (store_run c.block_size b bs 0 (stop - b) m) stop last
            | err x ↦ (some x, m)
          ])
      run missing within rest =
          let more : suc last - b ≡ suc (last - b) = omega arith in
          let grows : b < stop = rw more (missing_run_grows (last - b) m b missing) in
          let at : b + (stop - b) ≡ stop = omega arith in
          elim (Result-cases (read_run c b stop)) [
            | inl (bs, got) ↦
                let covers =
                  read_run-Covers content c serves b (stop - b) bs p sized
                    (omega (arith, mul_mono b last c.block_size within, inside)) (omega arith)
                    (rw at got) in
                rw got (
                  Fetched-stored m b stop bs _ (omega arith) (
                    rest _ stop (omega arith) (
                      store_run-IsCached content c.block_size b (stop - b) bs 0 (stop - b) m
                        (omega arith) covers cached)))
            | inr (x, failure) ↦ rw failure (Fetched-stopped m b stop x cached failure)
          ]
