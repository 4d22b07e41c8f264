-- ===== src/Video/Packetizer/Frame/Held.antt =====
-- What the bytes of the blocks hold of the frame, one block after the other.
use moonshine.Common.{
  ℕ, zero, suc, ◌+◌, ◌-◌, ◌*◌, ◌≤◌, ◌≡◌, sym, ap, ◌∙◌, ◌==◌, true, false, min, List, [], ◌∷◌, ◌++◌,
  length, take, drop, drop-append, drop-drop, if◌then◌else◌, arith,
}
use mathlib.Core.List.{append-nil}
use moonshine.Video.ShardBatch.{ShardBuf}
use moonshine.Video.Packetizer.Layout.Partition.{mul_mono}
use moonshine.Video.Packetizer.Crates.{Crates}
use moonshine.Video.Packetizer.Block.Write.{stream}
use moonshine.Video.Packetizer.Frame.{
  Request, frame_params, block_params, total_data_shards, blocks,
}
use moonshine.Video.Packetizer.Frame.Receive.{
  payloads, receive, join, length-payloads, payloads-append,
}
use moonshine.Video.Packetizer.Frame.Carried.{carried-payloads}
use moonshine.Video.Packetizer.Frame.Filled.{IsFilled}
use moonshine.Video.Packetizer.Frame.Laid.{IsLaid, sent_blocks, frame_params-IsFrame}

-- The data and parity shards of the blocks from `i` on, as the headers tell them to a receiver
abbrev pub layout : Request → ℕ → ℕ → List (ℕ × ℕ)
layout r zero i = []
layout r (suc rounds) i =
    let b = block_params r i in
    let rest = layout r rounds (i + 1) in
    (b.nr_data_shards, b.nr_parity_shards) ∷ (if i == 3 then [] else rest)

-- All shards of such blocks
abbrev pub shards_of : List (ℕ × ℕ) → ℕ
shards_of [] = 0
shards_of ((n, m) ∷ blocks) = n + m + shards_of blocks

module _ (r : Request) where
  abbrev pub size : ℕ
  size = (frame_params r).payload_size

  -- The blocks hold the frame from block `i` on.
  abbrev pub Holds : List (ℕ × ℕ) → ℕ → List ℕ → Type 0
  Holds blocks i bytes =
      let from = (block_params r i).start in
      let m =
        min ((total_data_shards r - from) * size)
          ((frame_params r).packet_data_len - from * size) in
      take m (receive (32 + size) blocks bytes)
      ≡ take m (drop (from * size) (stream (frame_params r)))

module _ (c : Crates) (r : Request) where
  -- A block's bytes are its shards.
  pub filled_length :
      (i : ℕ) (buf : ShardBuf)
      → IsFilled c r i buf
      → length buf.bytes
        ≡ ((block_params r i).nr_data_shards + (block_params r i).nr_parity_shards) * (32 + size r)
  filled_length i buf (plain, (count, _)) =
      let stride_is : buf.stride ≡ 32 + size r =
        omega (arith, plain.valid.split, plain.prefix_free, plain.shard_size) in
      plain.valid.sized
      ∙ ap (λ t. t * buf.stride) count
      ∙ ap (λ t. ((block_params r i).nr_data_shards + (block_params r i).nr_parity_shards) * t)
          stride_is

  -- What the data shards of block `i` hold
  filled_payloads :
      (i : ℕ) (buf : ShardBuf)
      → IsFilled c r i buf
      → let b = block_params r i in
        let m =
          min (b.nr_data_shards * size r) ((frame_params r).packet_data_len - b.start * size r) in
        take m (payloads (32 + size r) b.nr_data_shards buf.bytes)
        ≡ take m (drop (b.start * size r) (stream (frame_params r)))
  filled_payloads i buf (plain, (count, carries)) =
      let b = block_params r i in
      let read =
        carried-payloads (frame_params r) b (frame_params-IsFrame r) b.nr_data_shards 0 buf plain
          (omega (arith, count)) (λ j lo hi. carries j lo (omega arith)) in
      let here : b.start + 0 ≡ b.start = omega arith in
      let front : 0 * (32 + size r) ≡ 0 = omega arith in rw front at (rw here at read)

  pub last_Holds :
      (i : ℕ) (buf : ShardBuf)
      → IsLaid r i
      → (i + 1 == sent_blocks r) ≡ true
      → IsFilled c r i buf
      → Holds r
          (((block_params r i).nr_data_shards, (block_params r i).nr_parity_shards) ∷ [])
          i
          buf.bytes
  last_Holds i buf here last filled =
      let b = block_params r i in
      let left : total_data_shards r - b.start ≡ b.nr_data_shards = omega (arith, here.last last) in
      rw (append-nil, left) (filled_payloads i buf filled)

  pub next_Holds :
      (i : ℕ) (blocks' : List (ℕ × ℕ)) (buf : ShardBuf) (bytes : List ℕ)
      → IsLaid r i
      → (i + 1 == sent_blocks r) ≡ false
      → IsFilled c r i buf
      → (block_params r (i + 1)).start ≤ total_data_shards r
      → Holds r blocks' (i + 1) bytes
      → Holds r
          (((block_params r i).nr_data_shards, (block_params r i).nr_parity_shards) ∷ blocks')
          i
          (buf.bytes ++ bytes)
  next_Holds i blocks' buf bytes here going filled inside later =
      let b = block_params r i in
      let b' = block_params r (i + 1) in
      let p = b.nr_data_shards * size r in
      let k = (frame_params r).packet_data_len - b.start * size r in
      let stride = 32 + size r in
      let whole = stream (frame_params r) in
      let next : b'.start ≡ b.start + b.nr_data_shards = here.next going in
      let long = filled_length i buf filled in
      let room : b.nr_data_shards * stride ≤ length buf.bytes = omega (
        arith,
        long,
        mul_mono b.nr_data_shards (b.nr_data_shards + b.nr_parity_shards) stride (omega arith),
      ) in
      let from : b'.start * size r ≡ b.start * size r + p =
        ap (λ t. t * size r) next ∙ omega arith in
      let split : total_data_shards r - b.start
          ≡ b.nr_data_shards + (total_data_shards r - b'.start) =
        omega (arith, next, inside) in
      let shares : (total_data_shards r - b.start) * size r
          ≡ p + (total_data_shards r - b'.start) * size r =
        ap (λ t. t * size r) split ∙ omega arith in
      let q = (total_data_shards r - b'.start) * size r in
      let count : min q ((frame_params r).packet_data_len - b'.start * size r) ≡ min q (k - p) =
        ap (λ t. min q ((frame_params r).packet_data_len - t)) from ∙ omega arith in
      let rest : receive stride blocks'
            (drop ((b.nr_data_shards + b.nr_parity_shards) * stride) (buf.bytes ++ bytes))
          ≡ receive stride blocks' bytes =
        ap (λ t. receive stride blocks' (drop t (buf.bytes ++ bytes))) (sym long)
        ∙ ap (receive stride blocks') (drop-append buf.bytes bytes) in
      let goes_on : take (min q (k - p)) (receive stride blocks' bytes)
          ≡ take (min q (k - p)) (drop p (drop (b.start * size r) whole)) =
        ap (λ t. take t (receive stride blocks' bytes)) (sym count)
        ∙ later
        ∙ ap (λ t. take t (drop (b'.start * size r) whole)) count
        ∙ ap (take (min q (k - p)))
            (sym (drop-drop (b.start * size r) p (b'.start * size r) whole (sym from))) in
      let first = payloads stride b.nr_data_shards buf.bytes in
      let payload_is : stride - 32 ≡ size r = omega arith in
      let len : length first ≡ p =
        length-payloads stride b.nr_data_shards buf.bytes (omega arith) room
        ∙ ap (λ t. b.nr_data_shards * t) payload_is in
      rw (payloads-append stride b.nr_data_shards buf.bytes bytes room, rest, shares)
        (join p q k first (receive stride blocks' bytes) (drop (b.start * size r) whole) len
          (filled_payloads i buf filled) goes_on)
