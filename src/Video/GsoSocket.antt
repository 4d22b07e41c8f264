-- ===== src/Video/GsoSocket.antt =====
-- video/gso_socket.rs: how a shard batch is cut into datagrams. The kernel and the socket are not
-- modelled: what `try_send` answers to each chunk is an argument.
pub mod Chunks
pub mod Sends
use moonshine.Common.{
  ℕ, zero, suc, ◌+◌, ◌*◌, ◌/◌, List, [], ◌∷◌, ◌++◌, length, take, drop, min, max, leb, ltb, ◌==◌,
  if◌then◌else◌, Bool, true, false, Option, none, some,
}
use moonshine.Video.ShardBatch.{ShardBatch}

-- `?` on options
infixl 5 ◌>>=◌
abbrev ◌>>=◌ {ℓ κ} : {A : Type ℓ} {B : Type κ} → Option A → (A → Option B) → Option B
none >>= f = none
some a >>= f = f a

-- `MAX_UDP_PAYLOAD`
abbrev pub max_udp_payload : ℕ
max_udp_payload = 65507

unfoldable pub gso_segments_per_send : ℕ → ℕ → ℕ
gso_segments_per_send max_gso_segments shard_size =
    max (min max_gso_segments (if shard_size == 0 then 0 else max_udp_payload / shard_size)) 1

-- `bytes.chunks(size)`: one round for each byte is enough, as a round takes a byte at least.
unfoldable pub chunks_fuel : ℕ → ℕ → List ℕ → List (List ℕ)
chunks_fuel zero size bytes = []
chunks_fuel (suc fuel) size [] = []
chunks_fuel (suc fuel) size (b ∷ bytes) =
    take size (b ∷ bytes) ∷ chunks_fuel fuel size (drop size (b ∷ bytes))

unfoldable pub chunks : ℕ → List ℕ → List (List ℕ)
unfolding chunks_fuel
chunks size bytes = chunks_fuel (length bytes) size bytes

-- What `try_send` answers: it took the chunk, the socket buffer is full, or another error.
pub data Answer : Type 0 where
  accepted would_block rejected : Answer

-- What is handed to the socket: a chunk that the kernel took, and cuts into segments of the given
-- size, or a single datagram of `send_to`, which may fail.
pub data Send : Type 0 where
  gso : List ℕ → ℕ → Send
  datagram : List ℕ → Send

unfoldable pub datagrams : List (List ℕ) → List Send
datagrams [] = []
datagrams (c ∷ cs) = datagram c ∷ datagrams cs

-- `send_shards`: an error of `send_to` is logged, and the next shard is next in any case.
unfoldable pub send_shards : List ℕ → ℕ → List Send
unfolding datagrams chunks
send_shards bytes shard_size = if shard_size == 0 then [] else datagrams (chunks shard_size bytes)

-- The inner loop: the same chunk again while the socket would block. It gives whether the chunk was
-- taken, and the answers that are left; `none` says that it still waits for the socket.
unfoldable pub try_chunk : List Answer → Option (Bool × List Answer)
try_chunk [] = none
try_chunk (would_block ∷ answers) = try_chunk answers
try_chunk (accepted ∷ answers) = some (true, answers)
try_chunk (rejected ∷ answers) = some (false, answers)

-- The loop of `send_batch_gso` over the chunks, with the number of chunks that failed so far.
unfoldable pub send_chunks : ℕ → List (List ℕ) → List Answer → ℕ → Option (List Send × ℕ)
send_chunks shard_size [] answers failed = some ([], failed)
send_chunks shard_size (c ∷ cs) answers failed = elim (try_chunk answers) [
  | none ↦ none
  | some (true, rest) ↦
      send_chunks shard_size cs rest failed >>= λ (sends, n). some (gso c shard_size ∷ sends, n)
  | some (false, rest) ↦ send_chunks shard_size cs rest (failed + 1) >>= λ (sends, n).
      some (send_shards c shard_size ++ sends, n)
]

unfoldable pub send_batch_gso : ℕ → ShardBatch → List Answer → Option (List Send × ℕ)
send_batch_gso max_gso_segments batch answers =
    if batch.shard_size == 0
    then some ([], 0)
    else send_chunks batch.shard_size
        (chunks (gso_segments_per_send max_gso_segments batch.shard_size * batch.shard_size)
          batch.bytes)
        answers 0

unfoldable pub send_batch : ℕ → ShardBatch → List Answer → Option (List Send × ℕ)
send_batch max_gso_segments batch answers =
    if ltb 1 max_gso_segments
    then send_batch_gso max_gso_segments batch answers
    else some (send_shards batch.bytes batch.shard_size, 0)

-- The shards that are handed to the socket, in order: the kernel cuts a chunk as `chunks` does.
unfoldable pub handed_over : List Send → List (List ℕ)
unfolding chunks
handed_over [] = []
handed_over (gso c size ∷ sends) = chunks size c ++ handed_over sends
handed_over (datagram d ∷ sends) = d ∷ handed_over sends

-- Those that go out, where `outcomes` tells which of the calls of `send_to` succeed.
unfoldable pub sent_out : List Send → List Bool → List (List ℕ)
unfolding chunks
sent_out [] outcomes = []
sent_out (gso c size ∷ sends) outcomes = chunks size c ++ sent_out sends outcomes
sent_out (datagram d ∷ sends) [] = sent_out sends []
sent_out (datagram d ∷ sends) (true ∷ outcomes) = d ∷ sent_out sends outcomes
sent_out (datagram d ∷ sends) (false ∷ outcomes) = sent_out sends outcomes
