-- ===== src/Video/Packetizer/Layout/Partition.antt =====
-- The blocks of a frame share out its data shards, and no block before the fourth has more shards
-- than the code of an error-correcting block allows.
use moonshine.Common.{
  ℕ, zero, suc, ◌+◌, ◌-◌, ◌*◌, ◌/◌, ◌%◌, ◌≤◌, ◌<◌, ◌≡◌, ◌≢◌, inl, inr, Bool-cases, arith, min, ◌==◌,
  if◌then◌else◌, true,
}
use native.Mathlib.Nat.{div-mul-le_self, lt-div-mul-add, div-add-mod}
use moonshine.Video.Packetizer.Layout.{
  max_shards, div_ceil, last_shard_size, nr_data_shards_per_block, nr_parity_shards, nr_blocks,
  block_start, block_end,
}

-- Between 72 and 255 data shards go into a block, for every percentage of a byte.
pub per_block_bounds :
    (fec_percentage : ℕ)
    → fec_percentage < 256
    → (72 ≤ nr_data_shards_per_block fec_percentage)
      × (nr_data_shards_per_block fec_percentage ≤ 255)
unfolding nr_data_shards_per_block
per_block_bounds p h =
    let q : ℕ = 255 * p / (100 + p) in
    let below : q * (100 + p) ≤ 255 * p = div-mul-le_self (255 * p) (100 + p) in
    let q_small : q < 184 = grind arith in (omega (arith, q_small), omega arith)

pub pred_mul : (k s : ℕ) → 0 < k → (k - 1) * s + s ≡ k * s
pred_mul zero s h = absurd (omega arith)
pred_mul (suc k) s h = let e : suc k - 1 ≡ k = omega arith in rw e (omega arith)

-- `div_ceil` shards of `size` bytes are just enough for `len` bytes, and the last one holds
-- `last_shard_size` of them.
pub shards_cover :
    (len size : ℕ)
    → 0 < len
    → 0 < size
    → (0 < div_ceil len size)
      × ((div_ceil len size - 1) * size + last_shard_size len size ≡ len)
      × (0 < last_shard_size len size)
      × (last_shard_size len size ≤ size)
unfolding div_ceil last_shard_size
shards_cover len size p q = elim (Bool-cases (len % size == 0)) [
  | inl e ↦ rw (e, div_ceil, last_shard_size) (even (ground arith))
  | inr e ↦ rw (e, div_ceil, last_shard_size) (odd (ground arith))
]
  where
    whole : len / size * size + len % size ≡ len
    whole = omega (arith, div-add-mod len size)

    some_shard : len % size ≡ 0 → 0 < len / size
    some_shard e = grind (arith, whole)

    even :
        len % size ≡ 0
        → (0 < len / size) × ((len / size - 1) * size + size ≡ len) × (0 < size) × (size ≤ size)
    even e = (
      some_shard e,
      omega (arith, pred_mul (len / size) size (some_shard e), whole),
      q,
      omega arith,
    )

    odd :
        len % size ≢ 0
        → (0 < len / size + 1)
          × ((len / size + 1 - 1) * size + len % size ≡ len)
          × (0 < len % size)
          × (len % size ≤ size)
    odd e =
        let back : len / size + 1 - 1 ≡ len / size = omega arith in
        (omega arith, rw back whole, omega arith, omega arith)

-- The blocks of a frame, in order, when block 3 is the last one of all.
abbrev pub rounds : ℕ → ℕ
rounds nr_blocks = min nr_blocks 4

mul_suc : (i s : ℕ) → (i + 1) * s ≡ i * s + s
mul_suc i s = omega arith

pub mul_mono : (i j s : ℕ) → i ≤ j → i * s ≤ j * s
mul_mono i j s h = grind arith

module _ (per_block n : ℕ) (p : 0 < per_block) (q : 0 < n) where
  -- The full blocks end at or before the last data shard, and one more would not.
  full : ℕ
  full = (n - 1) / per_block

  full_bounds : (full * per_block < n) × (n ≤ full * per_block + per_block)
  unfolding full
  full_bounds = (
    omega (arith, div-mul-le_self (n - 1) per_block),
    omega (arith, lt-div-mul-add {a = n - 1} p),
  )

  next_start :
      (i : ℕ)
      → i + 1 < rounds (nr_blocks n per_block)
      → block_end per_block n i ≡ block_start per_block (i + 1)
  unfolding block_start block_end nr_blocks full
  next_start i h = ground (arith, mul_mono (i + 1) full per_block, full_bounds)

  last_end : block_end per_block n (rounds (nr_blocks n per_block) - 1) ≡ n
  unfolding block_end nr_blocks full
  last_end = ground (arith, full_bounds)

  not_empty :
      (i : ℕ)
      → i < rounds (nr_blocks n per_block)
      → block_start per_block i < block_end per_block n i
  unfolding block_start block_end nr_blocks full
  not_empty i h = ground (arith, mul_mono i full per_block, full_bounds)

first_start : (per_block : ℕ) → block_start per_block 0 ≡ 0
unfolding block_start
first_start per_block = omega arith

end_last :
    (per_block n i : ℕ)
    → 0 < per_block
    → 0 < n
    → (i + 1 == rounds (nr_blocks n per_block)) ≡ true
    → block_end per_block n i ≡ n
end_last per_block n i p q e =
    let here : i ≡ rounds (nr_blocks n per_block) - 1 = ground arith in
    rw here (last_end per_block n p q)

-- A frame with data is sent in one to four blocks, none of them empty. The first begins at the first
-- data shard, each begins where the one before ends, and the last ends with the last data shard.
pub block_partition :
    (per_block n i : ℕ)
    → 0 < per_block
    → 0 < n
    → i < rounds (nr_blocks n per_block)
    → (rounds (nr_blocks n per_block) ≤ 4)
      × (block_start per_block 0 ≡ 0)
      × (block_start per_block i < block_end per_block n i)
      × (block_end per_block n i
          ≡ (if i + 1 == rounds (nr_blocks n per_block) then n else block_start per_block (i + 1)))
block_partition per_block n i p q h = (
  omega arith,
  first_start per_block,
  not_empty per_block n p q i h,
  elim (Bool-cases (i + 1 == rounds (nr_blocks n per_block))) [
    | inl final ↦ rw final (end_last per_block n i p q final)
    | inr more ↦ rw more (next_start per_block n p q i (ground arith))
  ],
)

-- Shards of a block before the fourth: at most 255 with the parity shards.
block_shards_bound :
    (fec_percentage minimum n i : ℕ)
    → fec_percentage < 256
    → i < 3
    → let per_block = nr_data_shards_per_block fec_percentage in
      let k = block_end per_block n i - block_start per_block i in
      (k ≤ per_block) × (k + nr_parity_shards fec_percentage minimum k ≤ max_shards)
unfolding nr_parity_shards block_end block_start
block_shards_bound p m n i h hi =
    ground (arith, per_block_bounds p h, mul_suc i (nr_data_shards_per_block p))
