-- ===== src/Video/Packetizer/Block/Parity.antt =====
-- The loop over the headers of the parity shards: it ends, and leaves the data shards alone.
use moonshine.Common.{
  ℕ, zero, suc, ◌+◌, ◌*◌, ◌%◌, ◌^◌, ◌≤◌, ◌<◌, ◌≡◌, refl, ◌∙◌, List, [], ◌∷◌, length, slice, copy_at,
  leb-true, length-copy_at, arith,
}
use moonshine.Common.Bytes.{be16, le32}
use moonshine.Common.Results.{ok}
use moonshine.Video.ShardBatch.{ShardBuf, shard, set_shard}
use moonshine.Video.ShardBatch.Slots.{
  IsValid, set_shard-IsValid, shard-ok, length-shard, set_shard_lem,
}
use moonshine.Video.ShardBatch.Slices.{HasShapeOf}
use moonshine.Video.Packetizer.Layout.{multi_fec_blocks, fec_info, actual_fec_percentage}
use moonshine.Video.Packetizer.Block.{
  FrameParams, BlockParams, next_sequence, parity_shard, write_parity_shards,
}

module _ (f : FrameParams) (b : BlockParams) where
  parity_shard-ok :
      (index seq : ℕ) (old : List ℕ)
      → 32 ≤ length old
      → (s : List ℕ) × ((parity_shard f b index seq old ≡ ok s) × (length s ≡ length old))
  unfolding parity_shard
  parity_shard-ok index seq old h =
      let info =
        fec_info (b.nr_data_shards + index) b.nr_data_shards
          (actual_fec_percentage b.nr_parity_shards b.nr_data_shards) in
      (
        copy_at
            (copy_at
              (copy_at (copy_at (copy_at old 0 (0x90 ∷ 0 ∷ [])) 2 (be16 (seq % 2 ^ 16))) 20
                (le32 f.frame_number))
              27 (multi_fec_blocks b.block_index f.last_block_index ∷ []))
            28 (le32 info),
        (rw (leb-true 32 (length old) h) refl, simp length-copy_at refl),
      )

  -- The data shards of the block stay.
  abbrev pub KeepsData : ShardBuf → ShardBuf → Type 0
  KeepsData old new = (j : ℕ) → j < b.nr_data_shards → shard new j ≡ shard old j

  pub write_parity_shards-KeepsData :
      (n index seq : ℕ) (old : ShardBuf)
      → IsValid old
      → seq < 2 ^ 32
      → 32 ≤ old.data_size
      → b.nr_data_shards + index + n ≤ old.shard_count
      → (new : ShardBuf) × ((write_parity_shards f b n index seq old ≡ ok (new, (seq + n) % 2 ^ 32))
          × (HasShapeOf old new × KeepsData old new))
  unfolding write_parity_shards set_shard
  write_parity_shards-KeepsData zero index seq old v q size room =
      let same : (seq + 0) % 2 ^ 32 ≡ seq = omega arith in
      (
        old,
        (
          rw same refl,
          (
            record {
              valid = v;
              stride = refl;
              prefix_size = refl;
              data_size = refl;
              shard_count = refl;
            },
            (λ j h. refl),
          ),
        ),
      )
  write_parity_shards-KeepsData (suc n) index seq old v q size room =
      let at = b.nr_data_shards + index in
      let here = slice old.bytes (at * old.stride + old.prefix_size) old.data_size in
      let long : length here ≡ old.data_size = length-shard v at (omega arith) in
      let (s, (made, kept)) = parity_shard-ok index seq here (omega (arith, long)) in
      let (new, (run, (shape, stays))) =
        write_parity_shards-KeepsData n (index + 1) (next_sequence seq) (set_shard old at s)
          (set_shard-IsValid v at s) (omega arith) size (omega arith) in
      let same : (next_sequence seq + n) % 2 ^ 32 ≡ (seq + suc n) % 2 ^ 32 = omega arith in
      (
        new,
        (
          rw (shard-ok v at (omega arith), made, ← same) run,
          (
            record {
              valid = shape.valid;
              stride = shape.stride;
              prefix_size = shape.prefix_size;
              data_size = shape.data_size;
              shard_count = shape.shard_count;
            },
            (λ j h.
                stays j h
                ∙ (set_shard_lem v at j s (omega arith) (omega arith) (kept ∙ long)).1
                    (λ e. absurd (omega (arith, e)))),
          ),
        ),
      )
