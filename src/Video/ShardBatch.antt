-- ===== src/Video/ShardBatch.antt =====
-- video/shard_batch.rs: shards of one size in one flat buffer.
pub mod Slots
pub mod Slices
use moonshine.Common.{
  ℕ, zero, suc, ◌+◌, ◌*◌, ◌/◌, List, [], ◌∷◌, ◌++◌, length, slice, copy_at, replicate, ◌==◌,
  if◌then◌else◌,
}
use moonshine.Common.Results.{Result}
use moonshine.Common.Bytes.{range}

-- `ShardBatch`
pub record ShardBatch : Type 0 where
  pub bytes : List ℕ
  pub shard_size : ℕ

unfoldable pub empty : ShardBatch
empty = record { bytes = []; shard_size = 0 }

-- `checked_div` gives `None` at 0, and that counts as no shard.
unfoldable pub shard_count : ShardBatch → ℕ
shard_count b = if b.shard_size == 0 then 0 else length b.bytes / b.shard_size

-- `self.extend_from(other)`; the assertion on the sizes is compiled in debug builds only.
unfoldable pub extend_from : ShardBatch → ShardBatch → ShardBatch
extend_from b other = record {
  bytes = b.bytes ++ other.bytes;
  shard_size = if b.shard_size == 0 then other.shard_size else b.shard_size;
}

-- `ShardBuf`
pub record ShardBuf : Type 0 where
  pub bytes : List ℕ
  pub stride : ℕ
  pub prefix_size : ℕ
  pub data_size : ℕ
  pub shard_count : ℕ

-- `ShardBuf::new`
unfoldable pub alloc : ℕ → ℕ → ℕ → ShardBuf
alloc shard_count data_size prefix_size = record {
  bytes = replicate (shard_count * (prefix_size + data_size)) 0;
  stride = prefix_size + data_size;
  prefix_size = prefix_size;
  data_size = data_size;
  shard_count = shard_count;
}

-- The bytes that `shard_mut(index)` refers to; a slice out of range is a panic.
unfoldable pub shard : ShardBuf → ℕ → Result (List ℕ)
shard b index = range b.bytes (index * b.stride + b.prefix_size) b.data_size

-- The bytes that `prefix_mut(index)` refers to.
unfoldable pub prefix : ShardBuf → ℕ → Result (List ℕ)
prefix b index = range b.bytes (index * b.stride) b.prefix_size

-- What a caller writes through `shard_mut(index)`: all the bytes of that slice anew.
unfoldable pub set_shard : ShardBuf → ℕ → List ℕ → ShardBuf
set_shard b index new = record b { bytes = copy_at b.bytes (index * b.stride + b.prefix_size) new }

-- The same through `prefix_mut(index)`.
unfoldable pub set_prefix : ShardBuf → ℕ → List ℕ → ShardBuf
set_prefix b index new = record b { bytes = copy_at b.bytes (index * b.stride) new }

-- The data regions of `n` shards from shard `i` on.
unfoldable pub slices_from : ShardBuf → ℕ → ℕ → List (List ℕ)
slices_from b i zero = []
slices_from b i (suc n) =
    slice b.bytes (i * b.stride + b.prefix_size) b.data_size ∷ slices_from b (i + 1) n

-- `as_fec_slices`
unfoldable pub as_fec_slices : ShardBuf → List (List ℕ)
as_fec_slices b = slices_from b 0 b.shard_count

-- What an encoder leaves in those slices.
unfoldable pub set_slices_from : ShardBuf → ℕ → List (List ℕ) → ShardBuf
set_slices_from b i [] = b
set_slices_from b i (s ∷ ss) = set_slices_from (set_shard b i s) (i + 1) ss

-- `into_batch`
unfoldable pub into_batch : ShardBuf → ShardBatch
into_batch b = record { bytes = b.bytes; shard_size = b.stride }
