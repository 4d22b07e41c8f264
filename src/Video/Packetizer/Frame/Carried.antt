-- ===== src/Video/Packetizer/Frame/Carried.antt =====
-- What the data shards of a block carry of the frame, read from the buffer's bytes.
use moonshine.Common.{
  ℕ, zero, suc, ◌+◌, ◌-◌, ◌*◌, ◌≤◌, ◌<◌, ◌≡◌, refl, sym, ap, ◌∙◌, min, List, length, take, drop,
  length-append, length-take, length-drop, drop-drop, arith,
}
use moonshine.Common.Results.{ok}
use moonshine.Video.ShardBatch.{ShardBuf, shard}
use moonshine.Video.ShardBatch.Slots.{IsValid, shard-ok}
use moonshine.Video.Packetizer.Block.{FrameParams, BlockParams}
use moonshine.Video.Packetizer.Block.Write.{stream, IsFrame, payload, IsDataShard}
use moonshine.Video.Packetizer.Frame.Receive.{payloads, join, suc_mul}

-- The slots from `lo` up to `hi` are data shards.
abbrev pub Carries : FrameParams → BlockParams → ShardBuf → ℕ → ℕ → Type 0
Carries f b buf lo hi =
    (j : ℕ)
    → lo ≤ j
    → j < hi
    → (s : List ℕ) × ((seq : ℕ) × ((shard buf j ≡ ok s) × IsDataShard f b j seq s))

-- A buffer of shards with no prefix, each with a payload of `size` bytes
pub record IsPlain (size : ℕ) (buf : ShardBuf) : Type 0 where
  pub valid : IsValid buf
  pub prefix_free : buf.prefix_size ≡ 0
  pub shard_size : buf.data_size ≡ 32 + size

module _ (f : FrameParams) (b : BlockParams) (v : IsFrame f) where
  slot :
      (buf : ShardBuf) (j : ℕ) (s : List ℕ)
      → IsPlain f.payload_size buf
      → j < buf.shard_count
      → shard buf j ≡ ok s
      → s ≡ take (32 + f.payload_size) (drop (j * (32 + f.payload_size)) buf.bytes)
  slot buf j s plain inside found =
      let at : ok (take buf.data_size (drop (j * buf.stride + buf.prefix_size) buf.bytes)) ≡ ok s =
        sym (shard-ok plain.valid j inside) ∙ found in
      let stride_is : buf.stride ≡ 32 + f.payload_size =
        omega (arith, plain.valid.split, plain.prefix_free, plain.shard_size) in
      let offset : j * buf.stride + buf.prefix_size ≡ j * (32 + f.payload_size) =
        omega (arith, ap (λ t. j * t) stride_is, plain.prefix_free) in
      let same : s ≡ take buf.data_size (drop (j * buf.stride + buf.prefix_size) buf.bytes) = cc in
      same
      ∙ ap (λ t. take t (drop (j * buf.stride + buf.prefix_size) buf.bytes)) plain.shard_size
      ∙ ap (λ t. take (32 + f.payload_size) (drop t buf.bytes)) offset

  length-stream : length (stream f) ≡ f.packet_data_len
  length-stream = omega (arith, length-append f.header_bytes f.encoded_data, v.header, v.total)

  -- The payload of one shard
  carried_once :
      (j seq : ℕ) (s : List ℕ)
      → IsDataShard f b j seq s
      → let from = (b.start + j) * f.payload_size in
        let m = min f.payload_size (f.packet_data_len - from) in
        take m (drop 32 s) ≡ take m (drop from (stream f))
  carried_once j seq s good =
      let from = (b.start + j) * f.payload_size in
      let m = min f.payload_size (f.packet_data_len - from) in
      let size : length (payload f b j) ≡ m =
        omega (
          arith,
          length-take m (drop from (stream f)),
          length-drop from (stream f),
          length-stream,
        ) in
      ap (λ t. take t (drop 32 s)) (sym size) ∙ good.carried

  pub carried-payloads :
      (n j : ℕ) (buf : ShardBuf)
      → IsPlain f.payload_size buf
      → j + n ≤ buf.shard_count
      → Carries f b buf j (j + n)
      → let from = (b.start + j) * f.payload_size in
        let m = min (n * f.payload_size) (f.packet_data_len - from) in
        let stride = 32 + f.payload_size in
        take m (payloads stride n (drop (j * stride) buf.bytes)) ≡ take m (drop from (stream f))
  carried-payloads zero j buf plain room carries =
      let none_left : min (zero * f.payload_size)
            (f.packet_data_len - (b.start + j) * f.payload_size)
          ≡ 0 =
        omega arith in
      rw none_left refl
  carried-payloads (suc n) j buf plain room carries =
      let p = f.payload_size in
      let from = (b.start + j) * p in
      let k = f.packet_data_len - from in
      let rest = drop (j * (32 + p)) buf.bytes in
      let (s, (seq, (found, good))) = carries j (omega arith) (omega arith) in
      let here = slot buf j s plain (omega arith) found in
      let next : (b.start + (j + 1)) * p ≡ from + p = omega arith in
      let later =
        carried-payloads n (j + 1) buf plain (omega arith)
          (λ i lo hi. carries i (omega arith) (omega arith)) in
      let size : length (drop 32 (take (32 + p) rest)) ≡ p =
        ap (λ (t : List ℕ). length (drop 32 t)) (sym here)
        ∙ omega (arith, length-drop 32 s, good.sized) in
      let starts : take (min p k) (drop 32 (take (32 + p) rest))
          ≡ take (min p k) (drop from (stream f)) =
        ap (λ (t : List ℕ). take (min p k) (drop 32 t)) (sym here) ∙ carried_once j seq s good in
      let count : min (n * p) (f.packet_data_len - (b.start + (j + 1)) * p) ≡ min (n * p) (k - p) =
        ap (λ (t : ℕ). min (n * p) (f.packet_data_len - t)) next ∙ omega arith in
      let step : (j + 1) * (32 + p) ≡ j * (32 + p) + (32 + p) = omega arith in
      let goes_on : take (min (n * p) (k - p)) (payloads (32 + p) n (drop (32 + p) rest))
          ≡ take (min (n * p) (k - p)) (drop p (drop from (stream f))) =
        rw
          (
            drop-drop (j * (32 + p)) (32 + p) ((j + 1) * (32 + p)) buf.bytes (sym step),
            drop-drop from p ((b.start + (j + 1)) * p) (stream f) (sym next),
            ← count,
          )
          later in
      rw (suc_mul n p) (
        join p (n * p) k (drop 32 (take (32 + p) rest)) (payloads (32 + p) n (drop (32 + p) rest))
          (drop from (stream f)) size starts goes_on)
