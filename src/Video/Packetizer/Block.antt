-- ===== src/Video/Packetizer/Block.antt =====
-- One block of a frame: its data shards, the headers of its parity shards, and encryption.
pub mod Write
pub mod Seal
pub mod Encrypt
pub mod Parity
use moonshine.Common.{
  ℕ, zero, suc, ◌+◌, ◌-◌, ◌*◌, ◌%◌, ◌^◌, List, [], ◌∷◌, ◌++◌, Option, none, some, min, leb, ◌==◌,
  if◌then◌else◌, length, copy_at, replicate, bit_or,
}
use moonshine.Common.Bits.{shl}
use moonshine.Common.Bytes.{le32, le64, be16}
use moonshine.Common.Results.{Result, ok, err, panic, ◌>>=◌, ◌>>◌, assert, ok_or}
use moonshine.Video.ShardBatch.{ShardBuf, shard, prefix, set_shard, set_prefix}
use moonshine.Video.Packetizer.Layout.{
  nv_packet_offset, payload_offset, multi_fec_blocks, fec_info, actual_fec_percentage,
}
use moonshine.Video.Packetizer.Shard.{write_rtp_header, write_nv_video_packet, copy_header_and_data}
use moonshine.Video.Packetizer.Crates.{Crates}

-- What is the same for all blocks of a frame.
pub record FrameParams : Type 0 where
  pub payload_size : ℕ
  pub packet_data_len : ℕ
  pub header_bytes : List ℕ
  pub encoded_data : List ℕ
  pub frame_number : ℕ
  pub rtp_timestamp : ℕ
  pub last_block_index : ℕ

pub record BlockParams : Type 0 where
  pub block_index : ℕ
  pub start : ℕ
  pub nr_data_shards : ℕ
  pub nr_parity_shards : ℕ

-- `*sequence_number += 1` of a `u32`
abbrev pub next_sequence : ℕ → ℕ
next_sequence s = (s + 1) % 2 ^ 32

-- `ContainsPicData`, with `StartOfFrame` on the first shard of a block and `EndOfFrame` on the last.
unfoldable pub shard_flags : ℕ → ℕ → ℕ
shard_flags index nr_data_shards =
    let first = if index == 0 then bit_or 1 4 else 1 in
    if index == nr_data_shards - 1 then bit_or first 2 else first

module _ (f : FrameParams) (b : BlockParams) where
  block_fec_info : ℕ → ℕ
  block_fec_info index =
      fec_info index b.nr_data_shards (actual_fec_percentage b.nr_parity_shards b.nr_data_shards)

  -- The body of the loop over the data shards of a block.
  unfoldable pub data_shard : ℕ → ℕ → List ℕ → Result (List ℕ)
  unfolding block_fec_info
  data_shard index sequence_number shard =
      let payload_start = (b.start + index) * f.payload_size in
      let payload_len = min f.payload_size (f.packet_data_len - payload_start) in
      let rtp = write_rtp_header shard (sequence_number % 2 ^ 16) f.rtp_timestamp in
      let headers =
        write_nv_video_packet rtp nv_packet_offset (shl sequence_number 8 % 2 ^ 32) f.frame_number
          (shard_flags index b.nr_data_shards) (multi_fec_blocks b.block_index f.last_block_index)
          (block_fec_info index) in
      assert (leb payload_offset (length shard))
      >> copy_header_and_data headers payload_offset f.header_bytes f.encoded_data payload_start
          payload_len

  -- The loop, over `rounds` data shards from `index` on; it gives the next sequence number too.
  unfoldable pub write_data_shards : ℕ → ℕ → ℕ → ShardBuf → Result (ShardBuf × ℕ)
  write_data_shards zero index sequence_number buf = ok (buf, sequence_number)
  write_data_shards (suc rounds) index sequence_number buf = do
    old ← shard buf index
    new ← data_shard index sequence_number old
    write_data_shards rounds (index + 1) (next_sequence sequence_number) (set_shard buf index new)

  -- The headers of a parity shard, over what the encoder left there.
  unfoldable pub parity_shard : ℕ → ℕ → List ℕ → Result (List ℕ)
  unfolding block_fec_info
  parity_shard index sequence_number shard =
      assert (leb payload_offset (length shard))
      >> ok (
          copy_at
            (copy_at
              (copy_at
                (copy_at (copy_at shard 0 (0x90 ∷ 0 ∷ [])) 2 (be16 (sequence_number % 2 ^ 16)))
                (nv_packet_offset + 4) (le32 f.frame_number))
              (nv_packet_offset + 11) (multi_fec_blocks b.block_index f.last_block_index ∷ []))
            (nv_packet_offset + 12) (le32 (block_fec_info (b.nr_data_shards + index))))

  unfoldable pub write_parity_shards : ℕ → ℕ → ℕ → ShardBuf → Result (ShardBuf × ℕ)
  write_parity_shards zero index sequence_number buf = ok (buf, sequence_number)
  write_parity_shards (suc rounds) index sequence_number buf = do
    old ← shard buf (b.nr_data_shards + index)
    new ← parity_shard index sequence_number old
    write_parity_shards rounds (index + 1) (next_sequence sequence_number)
        (set_shard buf (b.nr_data_shards + index) new)

-- The 12-byte IV: the counter, little-endian, and `V` in the last byte.
unfoldable pub video_iv : ℕ → List ℕ
video_iv counter = copy_at (copy_at (replicate 12 0) 0 (le64 counter)) 11 (b'V' ∷ [])

module _ (c : Crates) where
  open c use {Cipher, encrypt}

  -- The loop over the shards of a block: each is encrypted under the next value of the counter.
  unfoldable pub encrypt_shards : Cipher → ℕ → ℕ → ℕ → ℕ → ShardBuf → Result ShardBuf × ℕ
  encrypt_shards cipher frame_number zero index counter buf = (ok buf, counter)
  encrypt_shards cipher frame_number (suc rounds) index counter buf =
      let iv = video_iv counter in
      let counter' = (counter + 1) % 2 ^ 64 in
      let sealed = do
        plain ← shard buf index
        (text, tag) ← ok_or (encrypt cipher iv plain)
        let buf' = set_shard buf index text
        old ← prefix buf' index
        ok (
            set_prefix buf' index
              (copy_at (copy_at (copy_at old 0 iv) 12 (le32 frame_number)) 16 tag))
      in elim sealed [
        | ok buf' ↦ encrypt_shards cipher frame_number rounds (index + 1) counter' buf'
        | err ↦ (err, counter')
        | panic ↦ (panic, counter')
      ]
