-- ===== src/Video/Packetizer/Frame.antt =====
-- `Packetizer::packetize`: the blocks of a frame, one after the other, in one batch.
pub mod Receive
pub mod Carried
pub mod Coded
pub mod Filled
pub mod Laid
pub mod Held
pub mod Sent
pub mod Whole
use moonshine.Common.{
  ℕ, zero, suc, ◌+◌, ◌-◌, ◌%◌, ◌^◌, List, Option, none, some, Bool, ◌==◌, ltb, if◌then◌else◌,
  length, replicate,
}
use moonshine.Common.Results.{Result, ok, err, panic, ok_or}
use moonshine.Video.ShardBatch.{
  ShardBatch, ShardBuf, empty, extend_from, alloc, as_fec_slices, set_slices_from, into_batch,
}
use moonshine.Video.Packetizer.Layout.{
  payload_offset, enc_prefix_size, video_frame_header_size, requested_shard_payload_size,
  last_shard_size, div_ceil, nr_data_shards_per_block, nr_parity_shards, nr_blocks,
  last_block_index, block_start, block_end,
}
use moonshine.Video.Packetizer.Shard.{VideoFrameHeader, serialize}
use moonshine.Video.Packetizer.Crates.{Crates}
use moonshine.Video.Packetizer.State.{
  Packetizer, SessionKeyData, maybe_update_cipher, get_fec_encoder,
}
use moonshine.Video.Packetizer.Block.{
  FrameParams, BlockParams, write_data_shards, write_parity_shards, encrypt_shards,
}

-- The arguments of `packetize` but the sequence number.
pub record Request : Type 0 where
  pub encoded_data : List ℕ
  pub is_key_frame : Bool
  pub requested_packet_size : ℕ
  pub minimum_fec_packets : ℕ
  pub fec_percentage : ℕ
  pub frame_number : ℕ
  pub rtp_timestamp : ℕ
  pub frame_processing_latency : ℕ

unfoldable pub packet_data_len : Request → ℕ
packet_data_len r = video_frame_header_size + length r.encoded_data

unfoldable pub frame_header : Request → VideoFrameHeader
unfolding packet_data_len
frame_header r = record {
  header_type = 1;
  frame_processing_latency = r.frame_processing_latency;
  frame_type = if r.is_key_frame then 2 else 1;
  last_payload_len =
      last_shard_size (packet_data_len r) (requested_shard_payload_size r.requested_packet_size)
      % 2 ^ 32;
}

unfoldable pub total_data_shards : Request → ℕ
total_data_shards r =
    div_ceil (packet_data_len r) (requested_shard_payload_size r.requested_packet_size)

unfoldable pub frame_blocks : Request → ℕ
frame_blocks r = nr_blocks (total_data_shards r) (nr_data_shards_per_block r.fec_percentage)

unfoldable pub frame_params : Request → FrameParams
frame_params r = record {
  payload_size = requested_shard_payload_size r.requested_packet_size;
  packet_data_len = packet_data_len r;
  header_bytes = serialize (frame_header r) (replicate video_frame_header_size 0);
  encoded_data = r.encoded_data;
  frame_number = r.frame_number;
  rtp_timestamp = r.rtp_timestamp;
  last_block_index = last_block_index (frame_blocks r);
}

unfoldable pub block_params : Request → ℕ → BlockParams
block_params r block_index =
    let per_block = nr_data_shards_per_block r.fec_percentage in
    let n =
      block_end per_block (total_data_shards r) block_index - block_start per_block block_index in
    record {
      block_index = block_index;
      start = block_start per_block block_index;
      nr_data_shards = n;
      nr_parity_shards = nr_parity_shards r.fec_percentage r.minimum_fec_packets n;
    }

-- `requested_shard_size`
unfoldable pub requested_shard_size : Request → ℕ
requested_shard_size r =
    (payload_offset + requested_shard_payload_size r.requested_packet_size) % 2 ^ 64

module _ (c : Crates) where
  open c use {Encoder, encode, Cipher}

  -- What `packetize` changes beside its result: the packetizer and the sequence number.
  pub record State : Type 0 where
    pub packetizer : Packetizer c
    pub sequence_number : ℕ

  abbrev pub M {ℓ} : Type ℓ → Type ℓ
  M A = State → Result A × State

  abbrev pub after {ℓ κ} :
      {A : Type ℓ} {B : Type κ} → Result A × State → (A → M B) → Result B × State
  after (ok a, s) k = k a s
  after (err, s) k = (err, s)
  after (panic, s) k = (panic, s)

  infixl 5 ◌>>=◌
  abbrev pub ◌>>=◌ {ℓ κ} : {A : Type ℓ} {B : Type κ} → M A → (A → M B) → M B
  ◌>>=◌ m k s = after (m s) k

  abbrev pub return {ℓ} : {A : Type ℓ} → A → M A
  return a s = (ok a, s)

  -- `get_fec_encoder`, where the block has parity shards.
  unfoldable pub block_encoder : BlockParams → M (Option Encoder)
  block_encoder b s =
      if ltb 0 b.nr_parity_shards
      then (let (e, p) = get_fec_encoder c b.nr_data_shards b.nr_parity_shards s.packetizer in
          (some_encoder e, record s { packetizer = p }))
      else (ok none, s)
    where
      some_encoder : Result Encoder → Result (Option Encoder)
      some_encoder (ok e) = ok (some e)
      some_encoder err = err
      some_encoder panic = panic

  -- A loop over shards, which takes the sequence number along where it succeeds.
  unfoldable pub numbered : (ℕ → Result (ShardBuf × ℕ)) → M ShardBuf
  numbered loop s = elim (loop s.sequence_number) [
    | ok (buf, next) ↦ (ok buf, record s { sequence_number = next })
    | err ↦ (err, s)
    | panic ↦ (panic, s)
  ]

  module _ (r : Request) (i : ℕ) where
    block_total : ℕ
    block_total = let b = block_params r i in b.nr_data_shards + b.nr_parity_shards

    -- Space for the prefix of each shard while there is a cipher.
    new_buf : M ShardBuf
    unfolding block_total
    new_buf s = (
      ok (
          alloc block_total (requested_shard_size r)
            (elim s.packetizer.cipher [ none ↦ 0 | some _ ↦ enc_prefix_size ])),
      s,
    )

    write_data : ShardBuf → M ShardBuf
    write_data buf =
        let b = block_params r i in
        numbered (λ seq. write_data_shards (frame_params r) b b.nr_data_shards 0 seq buf)

    -- Where there is an encoder, the parity shards are computed and their headers written.
    write_parity : Option Encoder → ShardBuf → M ShardBuf
    write_parity none buf = return buf
    write_parity (some e) buf =
        let b = block_params r i in
        (λ s. (ok_or (encode e (as_fec_slices buf)), s)) >>= λ slices. numbered (λ seq.
          write_parity_shards (frame_params r) b b.nr_parity_shards 0 seq
            (set_slices_from buf 0 slices))

    encrypt_all : ShardBuf → M ShardBuf
    unfolding block_total
    encrypt_all buf s = elim s.packetizer.cipher [
      | none ↦ (ok buf, s)
      | some cipher ↦
          let (out, counter) =
            encrypt_shards c cipher r.frame_number block_total 0 s.packetizer.gcm_iv_counter buf in
          (out, record s { packetizer = record s.packetizer { gcm_iv_counter = counter } })
    ]

    -- The body of the loop over the blocks.
    unfoldable pub block : M ShardBuf
    unfolding new_buf write_data write_parity encrypt_all
    block = do
      encoder ← block_encoder (block_params r i)
      buf ← new_buf
      written ← write_data buf
      coded ← write_parity encoder written
      encrypt_all coded

  -- The loop, over `rounds` blocks from block `i` on; it stops behind block 3.
  unfoldable pub blocks : Request → ℕ → ℕ → ShardBatch → M ShardBatch
  blocks r zero i batch = return batch
  blocks r (suc rounds) i batch = block r i >>= λ buf.
      let batch' = extend_from batch (into_batch buf) in
      let rest = blocks r rounds (i + 1) batch' in if i == 3 then return batch' else rest

  -- `packetize`; a payload size of 0 makes the first `%` panic.
  unfoldable pub packetize : SessionKeyData → Request → M ShardBatch
  packetize keys r s =
      let s' = record s { packetizer = maybe_update_cipher c keys s.packetizer } in
      if requested_shard_payload_size r.requested_packet_size == 0
      then (panic, s')
      else blocks r (frame_blocks r) 0 empty s'
