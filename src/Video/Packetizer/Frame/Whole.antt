-- ===== src/Video/Packetizer/Frame/Whole.antt =====
-- A frame from `packetize` to the receiver that puts it together.
use moonshine.Common.{
  ℕ, ◌+◌, ◌-◌, ◌*◌, ◌%◌, ◌^◌, ◌≤◌, ◌<◌, ◌≡◌, refl, sym, ap, ◌∙◌, false, inl, min, List, [], ◌∷◌,
  ◌++◌, length, take, drop, take_all, length-append, pos==zero, arith,
}
use moonshine.Common.Results.{ok}
use moonshine.Video.ShardBatch.{ShardBatch, empty}
use moonshine.Video.Packetizer.Layout.{requested_shard_payload_size}
use moonshine.Video.Packetizer.Crates.{Crates}
use moonshine.Video.Packetizer.State.{new, Packetizer, SessionKeyData, maybe_update_cipher}
use moonshine.Video.Packetizer.Block.Write.{stream}
use moonshine.Video.Packetizer.Frame.{
  Request, packet_data_len, frame_params, block_params, total_data_shards, frame_blocks, State,
  blocks, packetize,
}
use moonshine.Video.Packetizer.Frame.Receive.{receive}
use moonshine.Video.Packetizer.Frame.Coded.{MakesCodes, IsReady}
use moonshine.Video.Packetizer.Frame.Sent.{blocks-IsSent, some_frame_block}
use moonshine.Video.Packetizer.Frame.Laid.{IsSized, frame_params-IsFrame, first_start, cover}
use moonshine.Video.Packetizer.Frame.Held.{layout, shards_of, size, Holds}

-- A receiver gets the whole frame from the batch, which holds what the blocks have.
abbrev pub Arrives : Request → ShardBatch → Type 0
Arrives r batch =
    let blocks' = layout r (frame_blocks r) 0 in
    let stride = 32 + (frame_params r).payload_size in
    (batch.shard_size ≡ stride)
    × ((length batch.bytes ≡ shards_of blocks' * stride)
        × (take (8 + length r.encoded_data) (receive stride blocks' batch.bytes)
            ≡ (frame_params r).header_bytes ++ r.encoded_data))

abbrev pub AllSized : List (SessionKeyData × Request) → Type 0
AllSized [] = Unit
AllSized ((keys, r) ∷ frames) = IsSized r × AllSized frames

module _ (c : Crates) (r : Request) (v : IsSized r) (makes : MakesCodes c) where
  -- All blocks hold all of the frame.
  whole_frame :
      (bytes : List ℕ)
      → Holds r (layout r (frame_blocks r) 0) 0 bytes
      → take
          (frame_params r).packet_data_len
          (receive (32 + size r) (layout r (frame_blocks r) 0) bytes)
        ≡ stream (frame_params r)
  whole_frame bytes holds =
      let len = (frame_params r).packet_data_len in
      let start : (block_params r 0).start ≡ 0 = first_start r in
      let none_before : (block_params r 0).start * size r ≡ 0 =
        ap (λ t. t * size r) start ∙ omega arith in
      let all_of : total_data_shards r - (block_params r 0).start ≡ total_data_shards r =
        omega (arith, start) in
      let count : min ((total_data_shards r - (block_params r 0).start) * size r)
            (len - (block_params r 0).start * size r)
          ≡ len =
        ap (λ t. min (t * size r) (len - (block_params r 0).start * size r)) all_of
        ∙ omega (arith, none_before, (cover r v).2) in
      let long : length (stream (frame_params r)) ≤ len =
        let f = frame_params-IsFrame r in
        omega (
          arith,
          f.header,
          f.total,
          length-append (frame_params r).header_bytes (frame_params r).encoded_data,
        ) in
      ap (λ t. take t (receive (32 + size r) (layout r (frame_blocks r) 0) bytes)) (sym count)
      ∙ holds
      ∙ ap (λ t. take t (drop ((block_params r 0).start * size r) (stream (frame_params r)))) count
      ∙ ap (λ t. take len (drop t (stream (frame_params r)))) none_before
      ∙ take_all len (stream (frame_params r)) long

  not_encrypted :
      (keys : SessionKeyData) (p : Packetizer c)
      → p.encrypt ≡ false
      → maybe_update_cipher c keys p ≡ p
  unfolding maybe_update_cipher
  not_encrypted keys p plain = simp plain refl

  packetize_run :
      (keys : SessionKeyData) (s : State c)
      → s.packetizer.encrypt ≡ false
      → packetize c keys r s ≡ blocks c r (frame_blocks r) 0 empty s
  unfolding packetize
  packetize_run keys s plain =
      rw (pos==zero (requested_shard_payload_size r.requested_packet_size) v.some_payload) (
        ap (λ p. blocks c r (frame_blocks r) 0 empty (record s { packetizer = p }))
          (not_encrypted keys s.packetizer plain))

  pub packetize-Arrives :
      (keys : SessionKeyData) (s : State c)
      → IsReady c s
      → (batch : ShardBatch) × ((s' : State c) × ((packetize c keys r s ≡ (ok batch, s'))
            × (IsReady c s'
                × ((s'.sequence_number
                      ≡ (s.sequence_number + shards_of (layout r (frame_blocks r) 0)) % 2 ^ 32)
                    × Arrives r batch))))
  unfolding frame_params packet_data_len
  packetize-Arrives keys s (lt, ((no_cipher, plain), keep)) =
      let none_yet : 0 + frame_blocks r ≡ frame_blocks r = omega arith in
      let (batch, (s', (run, (ready, (counted, (shape, (bytes, (sent, (long, holds))))))))) =
        blocks-IsSent c r v makes (frame_blocks r) 0 empty s (some_frame_block r) none_yet
          (omega arith) (inl (unfold empty in refl)) (lt, ((no_cipher, plain), keep)) in
      let all_sent : batch.bytes ≡ bytes = sent ∙ unfold empty in refl in
      let received =
        ap
          (λ (t : List ℕ).
            take (8 + length r.encoded_data)
              (receive (32 + size r) (layout r (frame_blocks r) 0) t))
          all_sent in
      (
        batch,
        (
          s',
          (
            packetize_run keys s plain ∙ run,
            (
              ready,
              (counted, (shape, (ap length all_sent ∙ long, received ∙ whole_frame bytes holds))),
            ),
          ),
        ),
      )

module _ (c : Crates) where
  -- One call of `packetize` after the other, each with a batch as a receiver wants it
  abbrev pub Delivers : List (SessionKeyData × Request) → State c → Type 0
  Delivers [] s = Unit
  Delivers ((keys, r) ∷ frames) s =
      (batch : ShardBatch) × ((s' : State c) × ((packetize c keys r s ≡ (ok batch, s'))
          × (Arrives r batch
              × ((s'.sequence_number
                    ≡ (s.sequence_number + shards_of (layout r (frame_blocks r) 0)) % 2 ^ 32)
                  × Delivers frames s'))))

  ready-Delivers :
      (frames : List (SessionKeyData × Request)) (s : State c)
      → MakesCodes c
      → AllSized frames
      → IsReady c s
      → Delivers frames s
  ready-Delivers [] s makes sized ready = tt
  ready-Delivers ((keys, r) ∷ frames) s makes (first, sized) ready =
      let (batch, (s', (run, (ready', (counted, arrives))))) =
        packetize-Arrives c r first makes keys s ready in
      (batch, (s', (run, (arrives, (counted, ready-Delivers frames s' makes sized ready')))))

  -- A new packetizer without encryption delivers every frame of a stream, where the crate makes an
  -- encoder for any counts within its field that leaves the data shards alone, and each frame's
  -- shards have a payload, a size that fits a word and an FEC percentage that fits a byte. That is,
  -- each call of `packetize` ends without an error or a panic; its batch holds as many shards as the
  -- frame's blocks have; a receiver that puts the payloads of the data shards together, block after
  -- block, gets the frame's header and all of its data back; and the sequence number is counted on
  -- by one for each shard, also from frame to frame.
  pub packetize-Delivers :
      (frames : List (SessionKeyData × Request)) (n : ℕ)
      → MakesCodes c
      → AllSized frames
      → n < 2 ^ 32
      → Delivers frames (record { packetizer = new c false; sequence_number = n })
  unfolding new
  packetize-Delivers frames n makes sized lt =
      ready-Delivers frames _ makes sized (lt, ((refl, refl), tt))
