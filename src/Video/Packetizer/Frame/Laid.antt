-- ===== src/Video/Packetizer/Frame/Laid.antt =====
-- The blocks that `packetize` lays a frame out in: what holds of each of them.
use moonshine.Common.{
  ℕ, ◌+◌, ◌-◌, ◌*◌, ◌^◌, ◌≤◌, ◌<◌, ◌≡◌, refl, ◌==◌, true, false, length-copy_at, arith,
}
use moonshine.Video.Packetizer.Layout.{
  requested_shard_payload_size, nr_data_shards_per_block, nr_parity_shards, block_start, block_end,
}
use moonshine.Video.Packetizer.Layout.Partition.{
  per_block_bounds, pred_mul, shards_cover, mul_mono, rounds, block_partition,
}
use moonshine.Video.Packetizer.Shard.{serialize}
use moonshine.Video.Packetizer.Block.Write.{IsFrame}
use moonshine.Video.Packetizer.Frame.{
  Request, packet_data_len, total_data_shards, frame_blocks, frame_params, block_params,
  requested_shard_size,
}

-- A payload is not empty, a shard's size fits a word, and the percentage a byte.
pub record IsSized (r : Request) : Type 0 where
  pub some_payload : 0 < requested_shard_payload_size r.requested_packet_size
  pub fits : 32 + requested_shard_payload_size r.requested_packet_size < 2 ^ 64
  pub percentage : r.fec_percentage < 256

-- The number of blocks that are sent
abbrev pub sent_blocks : Request → ℕ
sent_blocks r = rounds (frame_blocks r)

pub frame_params-IsFrame : (r : Request) → IsFrame (frame_params r)
unfolding frame_params serialize packet_data_len
frame_params-IsFrame r = record { header = simp length-copy_at refl; total = refl }

pub requested_shard_size_lem :
    (r : Request) → IsSized r → requested_shard_size r ≡ 32 + (frame_params r).payload_size
unfolding requested_shard_size frame_params
requested_shard_size_lem r v = omega (arith, v.fits)

pub first_start : (r : Request) → (block_params r 0).start ≡ 0
unfolding block_params block_start
first_start r = omega arith

-- One of the blocks that are sent
pub record IsLaid (r : Request) (i : ℕ) : Type 0 where
  pub some_data : 0 < (block_params r i).nr_data_shards
  pub few :
      0 < (block_params r i).nr_parity_shards
      → (block_params r i).nr_data_shards + (block_params r i).nr_parity_shards ≤ 255
  pub starts :
      (j : ℕ)
      → j < (block_params r i).nr_data_shards
      → ((block_params r i).start + j) * (frame_params r).payload_size
        ≤ (frame_params r).packet_data_len
  pub within : (block_params r i).start + (block_params r i).nr_data_shards ≤ total_data_shards r
  pub last :
      (i + 1 == sent_blocks r) ≡ true
      → (block_params r i).start + (block_params r i).nr_data_shards ≡ total_data_shards r
  pub next :
      (i + 1 == sent_blocks r) ≡ false
      → (block_params r (i + 1)).start
        ≡ (block_params r i).start + (block_params r i).nr_data_shards

parity_few :
    (percentage minimum n : ℕ)
    → 0 < nr_parity_shards percentage minimum n
    → n + nr_parity_shards percentage minimum n ≤ 255
unfolding nr_parity_shards
parity_few percentage minimum n h = omega arith

block_end_le : (per n i : ℕ) → block_end per n i ≤ n
unfolding block_end
block_end_le per n i = ground arith

module _ (r : Request) (v : IsSized r) where
  some_block : 0 < nr_data_shards_per_block r.fec_percentage
  some_block = omega (arith, per_block_bounds r.fec_percentage v.percentage)

  pub cover :
      (0 < total_data_shards r)
      × ((total_data_shards r - 1) * (frame_params r).payload_size
          ≤ (frame_params r).packet_data_len)
      × ((frame_params r).packet_data_len ≤ total_data_shards r * (frame_params r).payload_size)
  unfolding total_data_shards frame_params packet_data_len
  cover =
      let len = packet_data_len r in
      let size = requested_shard_payload_size r.requested_packet_size in
      let (some_shard, all, some_byte, small) =
        shards_cover len size (omega arith) v.some_payload in
      (
        some_shard,
        omega (arith, all),
        omega (arith, all, small, pred_mul (total_data_shards r) size some_shard),
      )

  pub laid : (i : ℕ) → i < sent_blocks r → IsLaid r i
  unfolding block_params frame_blocks
  laid i lt =
      let per = nr_data_shards_per_block r.fec_percentage in
      let n = total_data_shards r in
      let (few, start, inside, end) = block_partition per n i some_block cover.0 lt in
      record {
        some_data = omega (arith, inside);
        few =
            parity_few r.fec_percentage r.minimum_fec_packets
              (block_end per n i - block_start per i);
        starts = (λ j lt'.
            (let before : block_start per i + j ≤ n - 1 =
                omega (arith, lt', block_end_le per n i) in
              omega (
                arith,
                mul_mono (block_start per i + j) (n - 1) (frame_params r).payload_size before,
                cover.1,
              )));
        within = omega (arith, inside, block_end_le per n i);
        last = (λ e.
            (let ending : block_end per n i ≡ n = rw e at end in omega (arith, ending, inside)));
        next = (λ e.
            (let ending : block_end per n i ≡ block_start per (i + 1) = rw e at end in
              omega (arith, ending, inside)));
      }
