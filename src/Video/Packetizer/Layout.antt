-- ===== src/Video/Packetizer/Layout.antt =====
-- How `packetize` lays a frame out: shard sizes, blocks, and parity shards per block.
pub mod Partition
pub mod Fields
use moonshine.Common.{
  ℕ, zero, suc, ◌+◌, ◌-◌, ◌*◌, ◌/◌, ◌%◌, ◌^◌, min, max, ◌==◌, if◌then◌else◌, bit_or, Bool, List,
}
use moonshine.Common.Bits.{shl}

-- `MAX_SHARDS`, `NV_VIDEO_PACKET_SIZE`, `PAYLOAD_OFFSET`, `VIDEO_FRAME_HEADER_SIZE`,
-- `ENC_PREFIX_SIZE`
abbrev pub max_shards : ℕ
max_shards = 255

abbrev pub nv_video_packet_size : ℕ
nv_video_packet_size = 16

abbrev pub rtp_header_size : ℕ
rtp_header_size = 12

abbrev pub padding_size : ℕ
padding_size = 4

abbrev pub nv_packet_offset : ℕ
nv_packet_offset = rtp_header_size + padding_size

abbrev pub payload_offset : ℕ
payload_offset = nv_packet_offset + nv_video_packet_size

abbrev pub enc_prefix_size : ℕ
enc_prefix_size = 12 + 4 + 16

abbrev pub video_frame_header_size : ℕ
video_frame_header_size = 8

-- `requested_packet_size - NV_VIDEO_PACKET_SIZE`, on 64 bits
unfoldable pub requested_shard_payload_size : ℕ → ℕ
requested_shard_payload_size requested_packet_size =
    (requested_packet_size + 2 ^ 64 - nv_video_packet_size) % 2 ^ 64

-- The payload of the last shard.
unfoldable pub last_shard_size : ℕ → ℕ → ℕ
last_shard_size packet_data_len payload_size =
    let rest = packet_data_len % payload_size in if rest == 0 then payload_size else rest

-- `div_ceil`
unfoldable pub div_ceil : ℕ → ℕ → ℕ
div_ceil a b = if a % b == 0 then a / b else a / b + 1

unfoldable pub nr_data_shards_per_block : ℕ → ℕ
nr_data_shards_per_block fec_percentage =
    max_shards - max_shards * fec_percentage / (100 + fec_percentage)

unfoldable pub nr_parity_shards : ℕ → ℕ → ℕ → ℕ
nr_parity_shards fec_percentage minimum_fec_packets nr_data_shards =
    min (max (nr_data_shards * fec_percentage / 100) minimum_fec_packets)
      (max_shards - nr_data_shards)

unfoldable pub nr_blocks : ℕ → ℕ → ℕ
nr_blocks nr_data_shards per_block = (nr_data_shards - 1) / per_block + 1

-- `(nr_blocks.min(4) as u8 - 1) << 6`
unfoldable pub last_block_index : ℕ → ℕ
last_block_index nr_blocks = shl (min nr_blocks 4 - 1) 6

-- The data shards of a block: from `start` up to `end`. The fourth block takes all that are left.
unfoldable pub block_start : ℕ → ℕ → ℕ
block_start per_block block_index = block_index * per_block

unfoldable pub block_end : ℕ → ℕ → ℕ → ℕ
block_end per_block nr_data_shards block_index =
    if block_index == 3 then nr_data_shards else min ((block_index + 1) * per_block) nr_data_shards

-- `((block_index as u8) << 4) | last_block_index`
unfoldable pub multi_fec_blocks : ℕ → ℕ → ℕ
multi_fec_blocks block_index last_block_index =
    bit_or (shl (block_index % 256) 4 % 256) last_block_index

-- `(index << 12 | nr_data_shards << 22 | fec_percentage << 4) as u32`
unfoldable pub fec_info : ℕ → ℕ → ℕ → ℕ
fec_info index nr_data_shards fec_percentage =
    bit_or (bit_or (shl index 12) (shl nr_data_shards 22)) (shl fec_percentage 4) % 2 ^ 32

-- The percentage that goes into the headers, recomputed from the shard counts.
unfoldable pub actual_fec_percentage : ℕ → ℕ → ℕ
actual_fec_percentage nr_parity_shards nr_data_shards = nr_parity_shards * 100 / nr_data_shards
