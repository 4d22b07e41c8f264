-- ===== src/Video/Packetizer/Block/Write.antt =====
-- What the loop over the data shards of a block leaves in the buffer.
use moonshine.Common.{
  ℕ, zero, suc, ◌+◌, ◌-◌, ◌*◌, ◌%◌, ◌^◌, ◌≤◌, ◌<◌, ◌≡◌, ◌≢◌, refl, sym, ◌∙◌, List, [], ◌∷◌, ◌++◌,
  min, arith, ◌⊎◌, inl, length, slice, copy_at, leb-true, length-copy_at, slice-copy_at,
  slice-copy_at_before, drop, length-take, dec_lt,
}
use moonshine.Common.Bytes.{le32, be16}
use moonshine.Common.Bits.{shl}
use moonshine.Common.Results.{ok}
use moonshine.Video.ShardBatch.{ShardBuf, shard, prefix, set_shard}
use moonshine.Video.ShardBatch.Slots.{
  IsValid, set_shard-IsValid, shard-ok, length-shard, set_shard_lem,
}
use moonshine.Video.Packetizer.Layout.{multi_fec_blocks, fec_info, actual_fec_percentage}
use moonshine.Video.Packetizer.Shard.{write_rtp_header, write_nv_video_packet}
use moonshine.Video.Packetizer.Shard.Payload.{copy_header_and_data_lem}
use moonshine.Video.Packetizer.Block.{
  FrameParams, BlockParams, next_sequence, shard_flags, data_shard, write_data_shards,
}

-- The frame's bytes: the header and the encoded data.
abbrev pub stream : FrameParams → List ℕ
stream f = f.header_bytes ++ f.encoded_data

-- The frame parameters that `packetize` makes.
pub record IsFrame (f : FrameParams) : Type 0 where
  pub header : length f.header_bytes ≡ 8
  pub total : f.packet_data_len ≡ 8 + length f.encoded_data

-- The part of the frame that shard `index` of a block carries.
abbrev pub payload : FrameParams → BlockParams → ℕ → List ℕ
payload f b index =
    let from = (b.start + index) * f.payload_size in
    slice (stream f) from (min f.payload_size (f.packet_data_len - from))

-- What a receiver finds in a data shard.
pub record IsDataShard (f : FrameParams) (b : BlockParams) (index sequence_number : ℕ) (s : List ℕ)
    : Type 0 where
  pub sized : length s ≡ 32 + f.payload_size
  pub sequence : slice s 2 2 ≡ be16 (sequence_number % 2 ^ 16)
  pub frame : slice s 20 4 ≡ le32 f.frame_number
  pub block : slice s 27 1 ≡ multi_fec_blocks b.block_index f.last_block_index ∷ []
  pub fec :
      slice s 28 4
      ≡ le32 (
          fec_info index b.nr_data_shards
            (actual_fec_percentage b.nr_parity_shards b.nr_data_shards))
  pub carried : slice s 32 (length (payload f b index)) ≡ payload f b index

rtp_header :
    (buf : List ℕ) (seq ts : ℕ)
    → 12 ≤ length buf
    → (length (write_rtp_header buf seq ts) ≡ length buf)
      × (slice (write_rtp_header buf seq ts) 2 2 ≡ be16 seq)
unfolding write_rtp_header
rtp_header (b0 ∷ b1 ∷ b2 ∷ b3 ∷ b4 ∷ b5 ∷ b6 ∷ b7 ∷ b8 ∷ b9 ∷ b10 ∷ b11 ∷ rest) seq ts h =
    (simp length-copy_at, refl)
rtp_header buf seq ts h = absurd (omega arith)

nv_header :
    (buf : List ℕ) (spi fi flags mfb info : ℕ)
    → 32 ≤ length buf
    → let out = write_nv_video_packet buf 16 spi fi flags mfb info in
      (length out ≡ length buf)
      × (slice out 2 2 ≡ slice buf 2 2)
      × (slice out 20 4 ≡ le32 fi)
      × (slice out 27 1 ≡ mfb ∷ [])
      × (slice out 28 4 ≡ le32 info)
unfolding write_nv_video_packet
nv_header
      (b0 ∷ b1 ∷ b2 ∷ b3 ∷ b4 ∷ b5 ∷ b6 ∷ b7 ∷ b8 ∷ b9 ∷ b10 ∷ b11 ∷ b12 ∷ b13 ∷ b14 ∷ b15 ∷ b16
        ∷ b17 ∷ b18 ∷ b19 ∷ b20 ∷ b21 ∷ b22 ∷ b23 ∷ b24 ∷ b25 ∷ b26 ∷ b27 ∷ b28 ∷ b29 ∷ b30 ∷ b31
        ∷ rest)
      spi fi flags mfb info h =
    (simp length-copy_at, refl, refl, refl, refl)
nv_header buf spi fi flags mfb info h = absurd (omega arith)

module _ (f : FrameParams) (b : BlockParams) (v : IsFrame f) where
  data_shard-IsDataShard :
      (index seq : ℕ) (old : List ℕ)
      → length old ≡ 32 + f.payload_size
      → (b.start + index) * f.payload_size ≤ f.packet_data_len
      → (s : List ℕ) × (data_shard f b index seq old ≡ ok s) × IsDataShard f b index seq s
  unfolding data_shard
  data_shard-IsDataShard index seq old e h = (
    copy_at headers 32 (payload f b index),
    rw (leb-true 32 (length old) (omega arith)) (
        copy_header_and_data_lem headers f.header_bytes f.encoded_data 32 from len v.header
          (omega (arith, v.total)) room),
    record {
      sized = omega (arith, length-copy_at headers 32 (payload f b index), long);
      sequence =
          slice-copy_at_before headers 32 (payload f b index) 2 2 (omega arith) ∙ nv.1 ∙ rtp.1;
      frame = slice-copy_at_before headers 32 (payload f b index) 20 4 (omega arith) ∙ nv.2;
      block = slice-copy_at_before headers 32 (payload f b index) 27 1 (omega arith) ∙ nv.3;
      fec = slice-copy_at_before headers 32 (payload f b index) 28 4 (omega arith) ∙ nv.4;
      carried =
          slice-copy_at headers 32 (payload f b index)
            (omega (arith, length-take len (drop from (stream f)), room));
    },
  )
    where
      from : ℕ
      from = (b.start + index) * f.payload_size

      len : ℕ
      len = min f.payload_size (f.packet_data_len - from)

      headers : List ℕ
      headers =
          write_nv_video_packet (write_rtp_header old (seq % 2 ^ 16) f.rtp_timestamp) 16
            (shl seq 8 % 2 ^ 32) f.frame_number (shard_flags index b.nr_data_shards)
            (multi_fec_blocks b.block_index f.last_block_index)
            (fec_info index b.nr_data_shards
              (actual_fec_percentage b.nr_parity_shards b.nr_data_shards))

      rtp_out : List ℕ
      rtp_out = write_rtp_header old (seq % 2 ^ 16) f.rtp_timestamp

      rtp : (length rtp_out ≡ length old) × (slice rtp_out 2 2 ≡ be16 (seq % 2 ^ 16))
      rtp = rtp_header old (seq % 2 ^ 16) f.rtp_timestamp (omega arith)

      nv :
          (length headers ≡ length rtp_out)
          × (slice headers 2 2 ≡ slice rtp_out 2 2)
          × (slice headers 20 4 ≡ le32 f.frame_number)
          × (slice headers 27 1 ≡ multi_fec_blocks b.block_index f.last_block_index ∷ [])
          × (slice headers 28 4
              ≡ le32 (
                  fec_info index b.nr_data_shards
                    (actual_fec_percentage b.nr_parity_shards b.nr_data_shards)))
      nv = nv_header rtp_out _ _ _ _ _ (omega (arith, rtp.0))

      long : length headers ≡ 32 + f.payload_size
      long = omega (arith, nv.0, rtp.0)

      room : 32 + len ≤ length headers
      room = omega (arith, long)

  -- The buffers before and after the loop, `n` data shards from `index` on.
  pub record Wrote (index n seq : ℕ) (old new : ShardBuf) : Type 0 where
    pub valid : IsValid new
    pub count : new.shard_count ≡ old.shard_count
    pub size : new.data_size ≡ old.data_size
    pub prefix_size : new.prefix_size ≡ old.prefix_size
    pub data_shards :
        (j : ℕ)
        → index ≤ j
        → j < index + n
        → (s : List ℕ) × (shard new j ≡ ok s) × IsDataShard f b j ((seq + (j - index)) % 2 ^ 32) s
    pub others :
        (j : ℕ) → j < old.shard_count → (j < index) ⊎ (index + n ≤ j) → shard new j ≡ shard old j
    pub prefixes : (j : ℕ) → j < old.shard_count → prefix new j ≡ prefix old j

  -- The first round, and the rest.
  Wrote-suc :
      (n index seq : ℕ) (old new : ShardBuf) (s : List ℕ)
      → IsValid old
      → seq < 2 ^ 32
      → old.data_size ≡ 32 + f.payload_size
      → index + suc n ≤ old.shard_count
      → IsDataShard f b index seq s
      → Wrote (index + 1) n (next_sequence seq) (set_shard old index s) new
      → Wrote index (suc n) seq old new
  unfolding set_shard
  Wrote-suc n index seq old new s w q e room good rest = record {
    valid = rest.valid;
    count = rest.count;
    size = rest.size;
    prefix_size = rest.prefix_size;
    data_shards = (λ j lo hi. elim (dec_lt index j) [
      | yes later ↦
          let same : (next_sequence seq + (j - (index + 1))) % 2 ^ 32
              ≡ (seq + (j - index)) % 2 ^ 32 =
            omega arith in
          rw (← same) (rest.data_shards j (omega arith) (omega arith))
      | no first ↦
          let here : j ≡ index = omega arith in
          let same : (seq + (index - index)) % 2 ^ 32 ≡ seq = omega arith in
          rw (here, same)
            (
              s,
              rest.others index (omega arith) (inl (omega arith)) ∙ (written index (omega arith)).0,
              good,
            )
    ]);
    others = (λ j hj out.
        rest.others j hj (ground (arith, out)) ∙ (written j hj).1 (λ same. ground (arith, out)));
    prefixes = (λ j hj. rest.prefixes j hj ∙ (written j hj).2);
  }
    where
      written :
          (j : ℕ)
          → j < old.shard_count
          → (shard (set_shard old index s) index ≡ ok s)
            × (index ≢ j → shard (set_shard old index s) j ≡ shard old j)
            × (prefix (set_shard old index s) j ≡ prefix old j)
      written j hj = set_shard_lem w index j s (omega arith) hj (good.sized ∙ sym e)

  pub write_data_shards-Wrote :
      (n index seq : ℕ) (old : ShardBuf)
      → IsValid old
      → seq < 2 ^ 32
      → old.data_size ≡ 32 + f.payload_size
      → index + n ≤ old.shard_count
      → ((j : ℕ) → j < index + n → (b.start + j) * f.payload_size ≤ f.packet_data_len)
      → (new : ShardBuf) × (write_data_shards f b n index seq old ≡ ok (new, (seq + n) % 2 ^ 32))
        × Wrote index n seq old new
  unfolding write_data_shards set_shard
  write_data_shards-Wrote zero index seq old w q e room starts =
      let same : (seq + 0) % 2 ^ 32 ≡ seq = omega arith in
      (
        old,
        rw same,
        record {
          valid = w;
          count = refl;
          size = refl;
          prefix_size = refl;
          data_shards = (λ j lo hi. absurd (omega arith));
          others = (λ j hj out. refl);
          prefixes = (λ j hj. refl);
        },
      )
  write_data_shards-Wrote (suc n) index seq old w q e room starts =
      let inside : index < old.shard_count = omega arith in
      let (s, made, good) =
        data_shard-IsDataShard index seq _ (length-shard w index inside ∙ e)
          (starts index (omega arith)) in
      let (new, run, rest) =
        write_data_shards-Wrote n (index + 1) (next_sequence seq) (set_shard old index s)
          (set_shard-IsValid w index s) (omega arith) e (omega arith)
          (λ j h. starts j (omega arith)) in
      let same : (next_sequence seq + n) % 2 ^ 32 ≡ (seq + suc n) % 2 ^ 32 = omega arith in
      (
        new,
        rw (shard-ok w index inside, made, ← same) run,
        Wrote-suc n index seq old new s w q e room good rest,
      )

  -- The loop over the data shards of a block, on a buffer that has room for them and slots for the
  -- headers and a payload, ends, counts the sequence number on by one for each, and leaves in slot `j`
  -- the shard of that number: its length, the sequence number, the frame's number, the block and the
  -- FEC word at their places, and behind them the part of the frame that it is to carry.
  pub write_data_shards_lem :
      (n index seq j : ℕ) (old : ShardBuf)
      → IsValid old
      → seq < 2 ^ 32
      → old.data_size ≡ 32 + f.payload_size
      → index + n ≤ old.shard_count
      → ((k : ℕ) → k < index + n → (b.start + k) * f.payload_size ≤ f.packet_data_len)
      → index ≤ j
      → j < index + n
      → (new : ShardBuf) × (s : List ℕ) × (write_data_shards f b n index seq old
          ≡ ok (new, (seq + n) % 2 ^ 32))
        × (shard new j ≡ ok s)
        × IsDataShard f b j ((seq + (j - index)) % 2 ^ 32) s
  write_data_shards_lem n index seq j old w q e room starts lo hi =
      let done = write_data_shards-Wrote n index seq old w q e room starts in
      let found = (done.2).data_shards j lo hi in (done.0, found.0, done.1, found.1, found.2)
