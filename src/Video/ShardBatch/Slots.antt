-- ===== src/Video/ShardBatch/Slots.antt =====
-- The slots of a `ShardBuf` are in bounds and do not overlap: what is written through one slice is
-- read back through it, and changes no other.
use moonshine.Common.{
  ℕ, ◌+◌, ◌*◌, ◌≤◌, ◌<◌, ◌≡◌, ◌≢◌, refl, ap, List, arith, length, slice, copy_at, dec_lt, leb-true,
  length-copy_at, length-replicate, length-take, length-drop, drop, slice-copy_at,
  slice-copy_at_before, drop-copy_at, take, ◌⊎◌, inl, inr, Bool-cases, ==_iff, ◌==◌, if◌then◌else◌,
  sym, ◌∙◌,
}
use moonshine.Common.Results.{ok}
use moonshine.Video.ShardBatch.{ShardBuf, alloc, shard, prefix, set_shard, set_prefix}

-- The buffer holds its slots exactly.
pub record IsValid (b : ShardBuf) : Type 0 where
  pub sized : length b.bytes ≡ b.shard_count * b.stride
  pub split : b.stride ≡ b.prefix_size + b.data_size

pub alloc-IsValid : (n data_size prefix_size : ℕ) → IsValid (alloc n data_size prefix_size)
unfolding alloc
alloc-IsValid n d p = record { sized = length-replicate (n * (p + d)) 0; split = refl }

-- Slot `i` of `n` ends before slot `j` begins, and inside the buffer.
slot_end : (i j s : ℕ) → i < j → i * s + s ≤ j * s
slot_end i j s h = grind arith

slot_mono : (i j s : ℕ) → i ≤ j → i * s ≤ j * s
slot_mono i j s h = grind arith

module _ {b : ShardBuf} (v : IsValid b) where
  shard_in :
      (i : ℕ) → i < b.shard_count → i * b.stride + b.prefix_size + b.data_size ≤ length b.bytes
  shard_in i h = omega (arith, v.sized, v.split, slot_end i b.shard_count b.stride h)

  prefix_in : (i : ℕ) → i < b.shard_count → i * b.stride + b.prefix_size ≤ length b.bytes
  prefix_in i h = omega (arith, shard_in i h)

  pub set_shard-IsValid : (i : ℕ) (new : List ℕ) → IsValid (set_shard b i new)
  unfolding set_shard
  set_shard-IsValid i new = record {
    sized = omega (arith, length-copy_at b.bytes (i * b.stride + b.prefix_size) new, v.sized);
    split = v.split;
  }

  pub set_prefix-IsValid : (i : ℕ) (new : List ℕ) → IsValid (set_prefix b i new)
  unfolding set_prefix
  set_prefix-IsValid i new = record {
    sized = omega (arith, length-copy_at b.bytes (i * b.stride) new, v.sized);
    split = v.split;
  }

  -- A shard in range is there, and is the slice at its place.
  pub shard-ok :
      (i : ℕ)
      → i < b.shard_count
      → shard b i ≡ ok (slice b.bytes (i * b.stride + b.prefix_size) b.data_size)
  unfolding shard
  shard-ok i h = rw (leb-true _ _ (shard_in i h))

  pub prefix-ok :
      (i : ℕ) → i < b.shard_count → prefix b i ≡ ok (slice b.bytes (i * b.stride) b.prefix_size)
  unfolding prefix
  prefix-ok i h = rw (leb-true _ _ (prefix_in i h))

  pub length-shard :
      (i : ℕ)
      → i < b.shard_count
      → length (slice b.bytes (i * b.stride + b.prefix_size) b.data_size) ≡ b.data_size
  length-shard i h = omega (
    arith,
    length-take b.data_size (drop (i * b.stride + b.prefix_size) b.bytes),
    length-drop (i * b.stride + b.prefix_size) b.bytes,
    shard_in i h,
  )

  pub length-prefix :
      (i : ℕ)
      → i < b.shard_count
      → length (slice b.bytes (i * b.stride) b.prefix_size) ≡ b.prefix_size
  length-prefix i h = omega (
    arith,
    length-take b.prefix_size (drop (i * b.stride) b.bytes),
    length-drop (i * b.stride) b.bytes,
    prefix_in i h,
  )

-- A write outside `j..j + n` leaves that slice as it is.
slice_apart :
    (xs : List ℕ) (i : ℕ) (bs : List ℕ) (j n : ℕ)
    → (i + length bs ≤ j) ⊎ (j + n ≤ i)
    → slice (copy_at xs i bs) j n ≡ slice xs j n
slice_apart xs i bs j n (inl h) = ap (take n) (drop-copy_at xs i bs j h)
slice_apart xs i bs j n (inr h) = slice-copy_at_before xs i bs j n h

-- Two regions of a buffer of slots: the same one, or one that ends where the other may begin.
module _ {b : ShardBuf} (v : IsValid b) (i j : ℕ) (new : List ℕ) where
  apart :
      i ≢ j → (i * b.stride + b.stride ≤ j * b.stride) ⊎ (j * b.stride + b.stride ≤ i * b.stride)
  apart ne = elim (dec_lt i j) [
    | yes h ↦ inl (slot_end i j b.stride h)
    | no h ↦ inr (slot_end j i b.stride (omega arith))
  ]

  pub set_shard_lem :
      i < b.shard_count
      → j < b.shard_count
      → length new ≡ b.data_size
      → (shard (set_shard b i new) i ≡ ok new)
        × (i ≢ j → shard (set_shard b i new) j ≡ shard b j)
        × (prefix (set_shard b i new) j ≡ prefix b j)
  unfolding shard prefix set_shard
  set_shard_lem hi hj e = (
    rw (leb-true _ _ in_bounds, ← e)
        (ap ok (slice-copy_at b.bytes start new (omega (arith, shard_in v i hi)))),
    (λ ne. rw (length-copy_at b.bytes start new, slice_apart b.bytes start new _ _ (away ne))),
    rw (length-copy_at b.bytes start new, slice_apart b.bytes start new _ _ before),
  )
    where
      start : ℕ
      start = i * b.stride + b.prefix_size

      in_bounds : start + b.data_size ≤ length (copy_at b.bytes start new)
      in_bounds = omega (arith, length-copy_at b.bytes start new, shard_in v i hi)

      away :
          i ≢ j
          → (start + length new ≤ j * b.stride + b.prefix_size)
            ⊎ (j * b.stride + b.prefix_size + b.data_size ≤ start)
      away ne = ground (arith, apart ne, v.split)

      before : (start + length new ≤ j * b.stride) ⊎ (j * b.stride + b.prefix_size ≤ start)
      before = elim (dec_lt i j) [
        | yes h ↦ inl (omega (arith, slot_end i j b.stride h, v.split))
        | no h ↦ inr (omega (arith, slot_mono j i b.stride (omega arith)))
      ]

  set_prefix_lem :
      i < b.shard_count
      → j < b.shard_count
      → length new ≡ b.prefix_size
      → (prefix (set_prefix b i new) i ≡ ok new)
        × (i ≢ j → prefix (set_prefix b i new) j ≡ prefix b j)
        × (shard (set_prefix b i new) j ≡ shard b j)
  unfolding shard prefix set_prefix
  set_prefix_lem hi hj e = (
    rw (leb-true _ _ in_bounds, ← e)
        (ap ok (slice-copy_at b.bytes start new (omega (arith, prefix_in v i hi)))),
    (λ ne. rw (length-copy_at b.bytes start new, slice_apart b.bytes start new _ _ (away ne))),
    rw (length-copy_at b.bytes start new, slice_apart b.bytes start new _ _ behind),
  )
    where
      start : ℕ
      start = i * b.stride

      in_bounds : start + b.prefix_size ≤ length (copy_at b.bytes start new)
      in_bounds = omega (arith, length-copy_at b.bytes start new, prefix_in v i hi)

      away : i ≢ j → (start + length new ≤ j * b.stride) ⊎ (j * b.stride + b.prefix_size ≤ start)
      away ne = ground (arith, apart ne, v.split)

      behind :
          (start + length new ≤ j * b.stride + b.prefix_size)
          ⊎ (j * b.stride + b.prefix_size + b.data_size ≤ start)
      behind = elim (dec_lt j i) [
        | yes h ↦ inr (omega (arith, slot_end j i b.stride h, v.split))
        | no h ↦ inl (omega (arith, slot_mono i j b.stride (omega arith)))
      ]

  -- In a buffer that holds its slots exactly, a shard written through `shard_mut(i)` is read back
  -- through `shard(i)`, and every other shard and every prefix in range stays as it was.
  pub shard-set_shard :
      i < b.shard_count
      → j < b.shard_count
      → length new ≡ b.data_size
      → (shard (set_shard b i new) j ≡ (if i == j then ok new else shard b j))
        × (prefix (set_shard b i new) j ≡ prefix b j)
  shard-set_shard hi hj e =
      let all = set_shard_lem hi hj e in
      elim (Bool-cases (i == j)) [
        | inl same ↦
            let here = (==_iff i j).0 same in
            rw same (ap (λ (k : ℕ). shard (set_shard b i new) k) (sym here) ∙ all.0, all.2)
        | inr other ↦ rw other (all.1 (ground arith), all.2)
      ]

  -- The same of a prefix written through `prefix_mut(i)`: it is read back, and every other prefix and
  -- every shard in range stays.
  pub prefix-set_prefix :
      i < b.shard_count
      → j < b.shard_count
      → length new ≡ b.prefix_size
      → (prefix (set_prefix b i new) j ≡ (if i == j then ok new else prefix b j))
        × (shard (set_prefix b i new) j ≡ shard b j)
  prefix-set_prefix hi hj e =
      let all = set_prefix_lem hi hj e in
      elim (Bool-cases (i == j)) [
        | inl same ↦
            let here = (==_iff i j).0 same in
            rw same (ap (λ (k : ℕ). prefix (set_prefix b i new) k) (sym here) ∙ all.0, all.2)
        | inr other ↦ rw other (all.1 (ground arith), all.2)
      ]
