-- ===== src/Tests/Video.antt =====
-- The video stream's theorems at concrete inputs.
use moonshine.Common.{
  Bool, ℕ, ◌+◌, ◌-◌, ◌/◌, ◌%◌, ◌^◌, ◌≤◌, ◌<◌, ◌≡◌, ◌≢◌, refl, List, [], ◌∷◌, false, some, arith,
  length, replicate, ◌==◌, if◌then◌else◌,
}
use moonshine.Common.Results.{ok}
use moonshine.Video.ShardBatch.{ShardBatch, ShardBuf, shard}
use moonshine.Video.ShardBatch.Slots.{IsValid}
use moonshine.Video.GsoSocket.{
  Answer, accepted, would_block, rejected, Send, chunks, handed_over, sent_out, send_batch,
  chunks_fuel, gso_segments_per_send,
}
use moonshine.Video.GsoSocket.Sends.{WithinCaps, IsPart, gso_chunks, send_batch_total}
use moonshine.Video.Packetizer.Layout.{
  nr_data_shards_per_block, nr_parity_shards, nr_blocks, block_start, block_end, fec_info,
  actual_fec_percentage,
}
use moonshine.Video.Packetizer.Layout.Partition.{rounds, block_partition, per_block_bounds}
use moonshine.Video.Packetizer.Layout.Fields.{fec_info_overrun}
use moonshine.Video.Packetizer.Crates.{Crates}
use moonshine.Video.Packetizer.State.{new, lookup, get_fec_encoder, warm_up}
use moonshine.Video.Packetizer.State.Encoders.{warm_up-covers}
use moonshine.Video.Packetizer.Block.Seal.{Seals, SealedSlot}
use moonshine.Video.Packetizer.Block.Encrypt.{encrypt_shards_lem}
use moonshine.Video.Packetizer.Block.{encrypt_shards, FrameParams, BlockParams, write_data_shards}
use moonshine.Video.Packetizer.Block.Write.{IsFrame, IsDataShard, write_data_shards_lem}

-- Two shards of two bytes and a half one, of which the kernel takes the first chunk.
abbrev batch : ShardBatch
batch = record { bytes = 1 ∷ 2 ∷ 3 ∷ 4 ∷ 5 ∷ []; shard_size = 2 }

abbrev answers : List Answer
answers = would_block ∷ accepted ∷ rejected ∷ []

enough : length (gso_chunks 2 batch) ≤ 2
unfolding chunks chunks_fuel gso_segments_per_send
enough = omega arith

send_batch_total_example :
    (r : List Send × ℕ) × (send_batch 2 batch answers ≡ some r)
    × (handed_over r.0 ≡ chunks batch.shard_size batch.bytes)
    × WithinCaps 2 r.0
    × (r.1 ≤ length (gso_chunks 2 batch))
    × ((outcomes : List Bool)
        → IsPart (sent_out r.0 outcomes) (chunks batch.shard_size batch.bytes))
send_batch_total_example = send_batch_total 2 batch answers (omega arith) (omega arith) enough

-- Three slots of a byte of prefix and two of data.
abbrev slots : ShardBuf
slots = record {
  bytes = replicate 9 0;
  stride = 3;
  prefix_size = 1;
  data_size = 2;
  shard_count = 3;
}

slots-IsValid : IsValid slots
slots-IsValid = record { sized = refl; split = refl }

three : 2 < rounds (nr_blocks 500 200)
unfolding nr_blocks
three = omega arith

block_partition_example :
    (rounds (nr_blocks 500 200) ≤ 4)
    × (block_start 200 0 ≡ 0)
    × (block_start 200 2 < block_end 200 500 2)
    × (block_end 200 500 2
        ≡ (if 2 + 1 == rounds (nr_blocks 500 200) then 500 else block_start 200 (2 + 1)))
block_partition_example = block_partition 200 500 2 (omega arith) (omega arith) three

fec_info_overrun_example :
    fec_info 0 1 (actual_fec_percentage (nr_parity_shards 20 3 1) 1) / 2 ^ 12 % 1024 ≢ 0
fec_info_overrun_example = fec_info_overrun 20 3 (omega arith) (omega arith) (omega arith)

abbrev header : List ℕ
header = replicate 8 9

-- Crates that make an encoder of any counts and give back what they are given.
abbrev pub plain_crates : Crates
plain_crates = record {
  Encoder = ℕ × ℕ;
  new_encoder = (λ n m. some (n, m));
  encode = (λ e shards. some shards);
  Cipher = List ℕ;
  new_cipher = (λ key. key);
  encrypt = (λ cipher iv text. some (text, replicate 16 0));
}

within : 10 ≤ nr_data_shards_per_block 20
within = omega (arith, per_block_bounds 20 (omega arith))

some_parity : 0 < nr_parity_shards 20 2 10
unfolding nr_parity_shards
some_parity = omega arith

warm_up-covers_example :
    let m = nr_parity_shards 20 2 10 in
    let warm = warm_up plain_crates 20 2 (new plain_crates false) in
    (e : ℕ × ℕ) × ((lookup plain_crates 10 m warm.fec_encoders ≡ some e)
      × (get_fec_encoder plain_crates 10 m warm ≡ (ok e, warm)))
warm_up-covers_example =
    warm_up-covers plain_crates 20 2 10 (new plain_crates false) (omega arith) within some_parity
      (10, nr_parity_shards 20 2 10) refl

-- A frame of eight header bytes and four bytes of data, in three shards of four bytes.
abbrev frame : FrameParams
frame = record {
  payload_size = 4;
  packet_data_len = 12;
  header_bytes = header;
  encoded_data = 1 ∷ 2 ∷ 3 ∷ 4 ∷ [];
  frame_number = 5;
  rtp_timestamp = 90;
  last_block_index = 0;
}

abbrev only_block : BlockParams
only_block = record { block_index = 0; start = 0; nr_data_shards = 3; nr_parity_shards = 1 }

abbrev room : ShardBuf
room = record {
  bytes = replicate 144 0;
  stride = 36;
  prefix_size = 0;
  data_size = 36;
  shard_count = 4;
}

frame-IsFrame : IsFrame frame
frame-IsFrame = record { header = refl; total = refl }

room-IsValid : IsValid room
room-IsValid = record { sized = refl; split = refl }

write_data_shards_lem_example :
    (new : ShardBuf) × (s : List ℕ) × (write_data_shards frame only_block 3 0 7 room
      ≡ ok (new, (7 + 3) % 2 ^ 32))
    × (shard new 1 ≡ ok s)
    × IsDataShard frame only_block 1 ((7 + (1 - 0)) % 2 ^ 32) s
write_data_shards_lem_example =
    write_data_shards_lem frame only_block frame-IsFrame 3 0 7 1 room room-IsValid (omega arith)
      refl (omega arith) (λ k h. omega arith) (omega arith) (omega arith)

-- Two slots of 32 bytes of prefix and one of data.
abbrev boxes : ShardBuf
boxes = record {
  bytes = replicate 66 0;
  stride = 33;
  prefix_size = 32;
  data_size = 1;
  shard_count = 2;
}

boxes-IsValid : IsValid boxes
boxes-IsValid = record { sized = refl; split = refl }

abbrev plain_seals : (iv plain : List ℕ) → Seals plain_crates [] iv plain
plain_seals iv plain = record {
  text = plain;
  tag = replicate 16 0;
  sealed = refl;
  same_length = refl;
  tag_length = refl;
}

box_one : shard boxes 1 ≡ ok (0 ∷ [])
unfolding shard
box_one = refl

encrypt_shards_lem_example :
    (new : ShardBuf) × (encrypt_shards plain_crates [] 5 2 0 9 boxes ≡ (ok new, (9 + 2) % 2 ^ 64))
    × SealedSlot plain_crates [] 5 plain_seals ((9 + (1 - 0)) % 2 ^ 64) 1 (0 ∷ []) new
encrypt_shards_lem_example =
    encrypt_shards_lem plain_crates [] 5 plain_seals 2 0 9 1 boxes (0 ∷ []) boxes-IsValid refl
      (omega arith) (omega arith) (omega arith) (omega arith) box_one
