-- ===== src/Video/Packetizer/Layout/Fields.antt =====
-- The fields that `packetize` packs into the words of a packet header are read back.
use native.Mathlib.Nat.{div-mul-le_self}
use moonshine.Common.{ℕ, ◌+◌, ◌-◌, ◌*◌, ◌/◌, ◌%◌, ◌^◌, ◌≤◌, ◌<◌, ◌≡◌, ◌≢◌, arith, bit_or, min, max}
use moonshine.Common.Bits.{shl, or-fields, or_comm}
use moonshine.Video.Packetizer.Layout.{
  fec_info, multi_fec_blocks, last_block_index, actual_fec_percentage, nr_parity_shards, max_shards,
}

packed :
    (index n percentage : ℕ)
    → index < 1024
    → percentage < 256
    → bit_or (bit_or (shl index 12) (shl n 22)) (shl percentage 4)
      ≡ n * 4194304 + index * 4096 + percentage * 16
packed index n percentage hi hp =
    let joined : n * 2 ^ 22 + shl index 12 ≡ shl (n * 1024 + index) 12 = omega arith in
    rw
      (
        or_comm (shl index 12) (shl n 22),
        or-fields 22 n (shl index 12) (omega arith),
        joined,
        or-fields 12 (n * 1024 + index) (shl percentage 4) (omega arith),
      )
      (omega arith)

-- A receiver that takes the words apart by shifts and masks finds the shard's index in its block, the
-- number of data shards and the percentage, and the block's number beside that of the last block.
fec_info_fields :
    (index n percentage : ℕ)
    → index < 1024
    → n < 1024
    → percentage < 256
    → (fec_info index n percentage / 2 ^ 22 ≡ n)
      × (fec_info index n percentage / 2 ^ 12 % 1024 ≡ index)
      × (fec_info index n percentage / 2 ^ 4 % 256 ≡ percentage)
unfolding fec_info
fec_info_fields index n percentage hi hn hp =
    rw (packed index n percentage hi hp) (omega arith, omega arith, omega arith)

div_below : (a n : ℕ) → 0 < n → a < 256 * n → a / n < 256
div_below a n hn h = grind (arith, div-mul-le_self a n)

-- The percentage in a header fits its eight bits when at most two parity shards are asked for as a
-- minimum.
actual_fec_percentage-lt :
    (fec_percentage minimum n : ℕ)
    → fec_percentage < 256
    → minimum ≤ 2
    → 0 < n
    → actual_fec_percentage (nr_parity_shards fec_percentage minimum n) n < 256
unfolding actual_fec_percentage nr_parity_shards
actual_fec_percentage-lt p m n hp hm hn =
    div_below (min (max (n * p / 100) m) (max_shards - n) * 100) n hn few
  where
    scaled : n * p ≤ n * 255
    scaled = grind arith

    few : min (max (n * p / 100) m) (max_shards - n) * 100 < 256 * n
    few = omega (arith, scaled)

-- `multi_fec_blocks` names the block in bits 4 and 5 and the last block in bits 6 and 7.
pub multi_fec_blocks_fields :
    (block_index nr_blocks : ℕ)
    → block_index < 4
    → 0 < nr_blocks
    → (multi_fec_blocks block_index (last_block_index nr_blocks) / 2 ^ 4 % 4 ≡ block_index)
      × (multi_fec_blocks block_index (last_block_index nr_blocks) / 2 ^ 6 ≡ min nr_blocks 4 - 1)
unfolding multi_fec_blocks last_block_index
multi_fec_blocks_fields i n hi hn =
    let wide : shl (i % 256) 4 % 256 ≡ i * 16 = omega arith in
    rw
      (
        wide,
        or_comm (i * 16) (shl (min n 4 - 1) 6),
        or-fields 6 (min n 4 - 1) (i * 16) (omega arith),
      )
      (omega arith, omega arith)

one_shard :
    (fec_percentage minimum : ℕ)
    → fec_percentage < 256
    → 3 ≤ minimum
    → minimum ≤ 254
    → actual_fec_percentage (nr_parity_shards fec_percentage minimum 1) 1 ≡ minimum * 100
unfolding actual_fec_percentage nr_parity_shards
one_shard p m hp lo hi = omega arith

-- In a block of one data shard the percentage overruns its field where the client asks for 3 to 254
-- parity shards: the index that a receiver reads for data shard 0 is then not 0.
pub fec_info_overrun :
    (fec_percentage minimum : ℕ)
    → fec_percentage < 256
    → 3 ≤ minimum
    → minimum ≤ 254
    → fec_info 0 1 (actual_fec_percentage (nr_parity_shards fec_percentage minimum 1) 1)
        / 2 ^ 12
        % 1024
      ≢ 0
unfolding fec_info
fec_info_overrun p m hp lo hi =
    let bits : bit_or (bit_or (shl 0 12) (shl 1 22)) (shl (m * 100) 4) ≡ 4194304 + m * 100 * 16 =
      or-fields 22 1 (shl (m * 100) 4) (omega arith) in
    rw (one_shard p m hp lo hi, bits) (λ h. omega arith)
