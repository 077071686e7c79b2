-- ===== src/Audio/ReadCache/Contract.antt =====
-- pkg/parser/audio/readcache.go: Read keeps the contract of a resource, and serves from memory what
-- it has fetched.
use go_toolkit.Prelude.{
  ℕ, suc, ◌-◌, ◌/◌, ◌≤◌, ◌<◌, ◌≡◌, refl, ap, sym, ◌∙◌, ◌⊎◌, inl, inr, ◌&&◌, ◌||◌, Option, none,
  some, ltb, leb, ◌==◌, leb→le, leb→lt, Bytes, length, slice, slice-past, arith, Bool-cases,
}
use go_toolkit.Prelude.Int.{pos, pos_part, leb_ℤ}
use go_toolkit.Fetcher.Resource.{
  Resource, Result, ok, err, ResourceErrorCode, range, Serves, Answers, Serves-Answers,
}
use go_toolkit.Audio.ReadCache.{ReadCache, Blocks, copy_out, read_blocks, read}
use go_toolkit.Audio.ReadCache.Blocks.{IsValid}
use go_toolkit.Audio.ReadCache.Gathering.{gather_all}
use go_toolkit.Audio.ReadCache.Reads.{
  BlocksRead, read_blocks-BlocksRead, IsBlockRange, IsResident, clamped, read-bypass, read-past,
  read-blocks, fetch-resident, range-clamped,
}

module _ (content : Bytes) (c : ReadCache) (start end : ℕ) (v : IsValid content c)
    (b : IsBlockRange c start end) where
  -- the range, at the size that is known
  pub range-known : range content start end ≡ slice content start (suc (clamped c end))
  range-known =
      let same = v.sized b.2 in rw same (range-clamped content start end b.1 (omega arith))

  Answers-blocks :
      (r : Result Bytes × ReadCache)
      → BlocksRead content c start (clamped c end) r
      → Answers content c.resource start end r.0 × IsValid content r.1
  Answers-blocks (r, c') read = (answer r read.outcome, read.valid)
    where
      answer :
          (r : Result Bytes)
          → ((r ≡ ok (slice content start (suc (clamped c end))))
              ⊎ ((x : ResourceErrorCode) × (r ≡ err x)
                  × ((a : ℕ) × (b : ℕ) × (c.resource.read a b ≡ err x))))
          → Answers content c.resource start end r
      answer r (inl e) = rw (e, range-known)
      answer r (inr (x, e, failed)) = rw e failed

  pub read-in_range :
      Serves content c.resource
      → Answers content c.resource start end (read c start end).0
        × IsValid content (read c start end).1
  read-in_range serves = elim (Bool-cases (leb (pos_part c.size) start)) [
    | inl past ↦ rw (read-past c start end b (leb→le _ _ past)) (
      sym (range-known ∙ slice-past content start _ (omega (arith, v.sized b.2, leb→le _ _ past))),
      v,
    )
    | inr inside ↦ rw (read-blocks c start end b (leb→lt _ _ inside)) (
        Answers-blocks _ (
          read_blocks-BlocksRead content c start (clamped c end) (omega (arith, leb→lt _ _ inside))
            (omega (arith, v.sized b.2)) (v.sized b.2) v serves))
  ]

-- From a valid cache over a resource whose successful reads are ranges of the content, Read of a
-- range in order returns the range of the content, under the interface's reading of (0, 0) and of
-- ranges past the end, or an error with which a read of the resource failed; and the cache that it
-- leaves is valid: each of its blocks is that block of the content.
pub read-Answers :
    (content : Bytes) (c : ReadCache) (start end : ℕ)
    → IsValid content c
    → Serves content c.resource
    → start ≤ end
    → Answers content c.resource start end (read c start end).0
      × IsValid content (read c start end).1
read-Answers content c start end v serves se =
    elim (Bool-cases ((start == 0 && end == 0) || leb_ℤ c.size (pos 0) || ltb end start)) [
      | inl bypass ↦
          rw (read-bypass c start end bypass)
            (Serves-Answers content c.resource start end _ serves se refl, v)
      | inr cached ↦ read-in_range content c start end v (ground arith) serves
    ]

module _ (content : Bytes) (c : ReadCache) (start end : ℕ) (v : IsValid content c)
    (b : IsBlockRange c start end) where
  read_blocks-resident :
      IsResident c start end
      → start ≤ clamped c end
      → clamped c end < length content
      → read_blocks c start (clamped c end) ≡ (ok (slice content start (suc (clamped c end))), c)
  unfolding read_blocks
  read_blocks-resident there se el =
      let first = start / c.block_size in
      let last = clamped c end / c.block_size in
      ap (copy_out c start (clamped c end))
        (fetch-resident c start end (suc last - first) c.blocks first last there)
      ∙ unfold copy_out in
        ap (λ (bs : Bytes). (ok bs, c))
          (gather_all content c.block_size start (clamped c end) v.positive se el c.blocks v.cached
            there)

  -- In a valid cache of known size, a range in order, other than (0, 0), whose blocks are all in
  -- the map is served from them: the answer does not depend on the resource, and the cache stays as
  -- it is.
  read-resident : IsResident c start end → read c start end ≡ (ok (range content start end), c)
  read-resident there = elim (Bool-cases (leb (pos_part c.size) start)) [
    | inl past ↦
        let nothing =
          slice-past content start (suc (clamped c end))
            (omega (arith, v.sized b.2, leb→le _ _ past)) in
        rw (read-past c start end b (leb→le _ _ past), range-known content c start end v b, nothing)
    | inr inside ↦ rw (
      read-blocks c start end b (leb→lt _ _ inside),
      read_blocks-resident there (omega (arith, leb→lt _ _ inside)) (omega (arith, v.sized b.2)),
      range-known content c start end v b,
    )
  ]

-- the same cache over another resource
abbrev pub over : Resource → ReadCache → ReadCache
over r c = record c { resource = r }

module _ (content : Bytes) (c : ReadCache) (start end : ℕ) (v : IsValid content c)
    (b : IsBlockRange c start end) where
  resident-copied :
      (failure : Option ResourceErrorCode) (m : Blocks) (bs : Bytes) (r : Resource)
      → BlocksRead content c start (clamped c end) (copy_out c start (clamped c end) (failure, m))
      → (copy_out c start (clamped c end) (failure, m)).0 ≡ ok bs
      → read (over r (copy_out c start (clamped c end) (failure, m)).1) start end
        ≡ (ok bs, over r (copy_out c start (clamped c end) (failure, m)).1)
  unfolding copy_out
  resident-copied (some x) m bs r done e = cc
  resident-copied none m bs r done e =
      let c' = over r (record c { blocks = m }) in
      let v' : IsValid content c' = record {
        positive = v.positive;
        sized = v.sized;
        cached = done.valid.cached;
      } in
      let answer = Answers-blocks content c start end v b _ done in
      let same : bs ≡ range content start end = cc (answer.0) in
      rw same (read-resident content c' start end v' b (done.present _ refl))

  -- In a valid cache of known size over a resource whose successful reads are ranges of the
  -- content, what Read has returned once for a range in order, other than (0, 0), it returns again,
  -- even over another resource.
  read-again :
      (bs : Bytes) (r : Resource)
      → Serves content c.resource
      → (read c start end).0 ≡ ok bs
      → read (over r (read c start end).1) start end ≡ (ok bs, over r (read c start end).1)
  read-again bs r serves = elim (Bool-cases (leb (pos_part c.size) start)) [
    | inl past ↦
        let le = leb→le _ _ past in
        rw (read-past c start end b le, read-past (over r c) start end b le)
          (λ e. ap (λ (x : Result Bytes). (x, over r c)) e)
    | inr inside ↦
        let lt = leb→lt _ _ inside in
        rw (read-blocks c start end b lt) (
          unfold read_blocks in
          resident-copied _ _ bs r (
            unfold read_blocks in
            read_blocks-BlocksRead content c start (clamped c end) (omega arith)
              (omega (arith, v.sized b.2)) (v.sized b.2) v serves))
  ]
