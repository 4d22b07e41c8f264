-- ===== src/Audio/Encoder.antt =====
-- moonshine-core/src/session/stream/audio/encoder.rs: the loop that encodes frames and sends them in
-- packets, four with data and two with parity to a group; and `encrypt_cbc` of crypto.rs.
pub mod Packets
pub mod Shards
pub mod Parity
pub mod Group
pub mod Rounds
pub mod Stream
pub mod Numbers
use moonshine.Common.{
  ℕ, zero, suc, ◌+◌, ◌-◌, ◌/◌, ◌%◌, ◌^◌, ◌==◌, leb, Bool, true, false, ◌&&◌, Option, none, some,
  List, [], ◌∷◌, ◌++◌, map, length, set, take, drop, slice, copy_at, replicate, if◌then◌else◌,
}
use moonshine.Common.Int.{ℤ, pos, negsuc}
use moonshine.Common.Bytes.{be16, be32}
use moonshine.Common.Results.{Result, ok, err, panic, ◌>>=◌, ◌>>◌, assert, ensure, ok_or}
use moonshine.Video.Packetizer.State.{SessionKeyData}

-- What the crates give: the Reed-Solomon code of fec_rs, made with the numbers of shards and the
-- matrix, which encodes views of the shards and says whether a group was complete; and `cbc`, which
-- encrypts a buffer whose first bytes are the data.
pub record Crates : Type 1 where
  pub Fec : Type 0
  pub new_fec : ℕ → ℕ → List ℕ → Fec
  pub encode : Fec → List (List ℕ) → Fec × List (List ℕ)
  pub reset : Fec → Fec × Bool
  pub reset_force : Fec → Fec
  pub encrypt_padded : List ℕ → List ℕ → List ℕ → ℕ → Option (List ℕ)

abbrev pub nr_data_shards : ℕ
nr_data_shards = 4

abbrev pub nr_parity_shards : ℕ
nr_parity_shards = 2

abbrev pub max_shard_size : ℕ
max_shard_size = 2048

-- The sizes of `RtpHeader` and `AudioFecHeader`
abbrev pub rtp_header_size : ℕ
rtp_header_size = 12

abbrev pub fec_header_size : ℕ
fec_header_size = 12

-- A frame as the loop meets it: what Opus makes of it, the microseconds since the start, the keys,
-- and whether the channel takes each of the packets.
pub record Round : Type 0 where
  pub encoded : Option (List ℕ)
  pub elapsed : ℕ
  pub keys : SessionKeyData
  pub accepts : ℕ → Bool

-- `as u32` of an i64
abbrev pub as_u32 : ℤ → ℕ
as_u32 (pos n) = n % 2 ^ 32
as_u32 (negsuc n) = 2 ^ 32 - 1 - n % 2 ^ 32

unfoldable pub audio_iv : SessionKeyData → ℕ → List ℕ
audio_iv keys sequence_number =
    be32 ((as_u32 keys.remote_input_key_id + sequence_number) % 2 ^ 32) ++ replicate 12 0

-- The RTP header of a data shard
unfoldable pub rtp_header : ℕ → ℕ → List ℕ
rtp_header sequence_number timestamp =
    0x80 ∷ 97 ∷ (be16 sequence_number ++ (be32 timestamp ++ be32 0))

unfoldable pub write_data_packet : List ℕ → ℕ → ℕ → List ℕ → List ℕ
write_data_packet shard sequence_number timestamp payload =
    copy_at (copy_at shard 0 (rtp_header sequence_number timestamp)) rtp_header_size payload

-- The fields of the RTP header that a parity shard sets, and its `AudioFecHeader`
unfoldable pub parity_rtp_fields : ℕ → ℕ → List ℕ
parity_rtp_fields sequence_number index =
    127 ∷ (be16 ((sequence_number + index) % 2 ^ 16) ++ (be32 0 ++ be32 0))

unfoldable pub fec_header : ℕ → ℕ → ℕ → List ℕ
fec_header index base_sequence_number base_timestamp =
    index % 2 ^ 8 ∷ 97 ∷ (be16 base_sequence_number ++ (be32 base_timestamp ++ be32 0))

-- The header is set, the payload moved back, and the second header written between them.
unfoldable pub write_parity_packet : List ℕ → ℕ → ℕ → ℕ → ℕ → ℕ → List ℕ
write_parity_packet shard index sequence_number base_sequence_number base_timestamp len =
    let headed = copy_at shard 1 (parity_rtp_fields sequence_number index) in
    let moved =
      copy_at headed (rtp_header_size + fec_header_size) (slice headed rtp_header_size len) in
    copy_at moved rtp_header_size (fec_header index base_sequence_number base_timestamp)

-- `shards[i]`
unfoldable pub shard_at : List (List ℕ) → ℕ → Result (List ℕ)
shard_at [] i = panic
shard_at (s ∷ ss) zero = ok s
shard_at (s ∷ ss) (suc i) = shard_at ss i

-- `shard[..size].to_vec()`
unfoldable pub crop : List ℕ → ℕ → Result (List ℕ)
crop shard size = do assert (leb size (length shard)); ok (take size shard)

unfoldable pub fits : ℕ → List (List ℕ) → Bool
fits size [] = true
fits size (s ∷ ss) = leb size (length s) && fits size ss

-- What `encode` wrote through the views of the shards
unfoldable pub write_back : List (List ℕ) → List (List ℕ) → List (List ℕ)
write_back [] views = []
write_back (s ∷ ss) [] = s ∷ ss
write_back (s ∷ ss) (v ∷ vs) = copy_at s 0 v ∷ write_back ss vs

-- The loop over the parity shards, from `index` on: the shards, and the packets that are sent
unfoldable pub parity_shards :
    List (List ℕ) → ℕ → ℕ → ℕ → ℕ → ℕ → (ℕ → Bool) → Result (List (List ℕ) × List (List ℕ))
parity_shards [] index sequence_number base_sequence_number base_timestamp len accepts = ok ([], [])
parity_shards (s ∷ ss) index sequence_number base_sequence_number base_timestamp len accepts =
    let s' = write_parity_packet s index sequence_number base_sequence_number base_timestamp len in
    let later =
      parity_shards ss (index + 1) sequence_number base_sequence_number base_timestamp len
        accepts in
    crop s' (rtp_header_size + fec_header_size + len) >>= λ packet. elim (accepts (index + 1)) [
      | true ↦ later >>= λ rest. ok (s' ∷ rest.0, packet ∷ rest.1)
      | false ↦ ok (s' ∷ ss, [])
    ]

-- A round's packets, and those of the later rounds if the loop goes on
unfoldable pub go_on : Bool → List (List ℕ) → Result (List (List ℕ)) → Result (List (List ℕ))
go_on true packets later = later >>= λ rest. ok (packets ++ rest)
go_on false packets later = ok packets

module _ (c : Crates) where
  open c use {Fec, new_fec, encode, reset, reset_force, encrypt_padded}

  -- `encrypt_cbc`
  unfoldable pub encrypt_cbc : List ℕ → List ℕ → List ℕ → Result (List ℕ)
  encrypt_cbc bytes key iv = do
    ensure (length key == 16)
    ensure (length iv == 16)
    ok_or (encrypt_padded key iv (bytes ++ replicate (16 - length bytes % 16) 0) (length bytes))

  -- The variables of the loop
  pub record AudioEncoder : Type 0 where
    pub sequence_number : ℕ
    pub base_sequence_number : ℕ
    pub base_timestamp : ℕ
    pub shards : List (List ℕ)
    pub fec_encoder : Fec

  -- Their values before the loop; the crate takes this matrix for these counts, so that `expect` does
  -- not panic.
  unfoldable pub new : AudioEncoder
  new = record {
    sequence_number = 0;
    base_sequence_number = 0;
    base_timestamp = 0;
    shards = replicate (nr_data_shards + nr_parity_shards) (replicate max_shard_size 0);
    fec_encoder =
        new_fec nr_data_shards nr_parity_shards
          (0x77 ∷ 0x40 ∷ 0x38 ∷ 0x0e ∷ 0xc7 ∷ 0xa7 ∷ 0x0d ∷ 0x6c ∷ []);
  }

  unfoldable pub payload_of : Bool → SessionKeyData → ℕ → List ℕ → Result (List ℕ)
  payload_of true keys sequence_number encoded =
      encrypt_cbc encoded keys.remote_input_key (audio_iv keys sequence_number)
  payload_of false keys sequence_number encoded = ok encoded

  -- The shard of the packet is written, and the number counted on.
  unfoldable pub store : ℕ → List ℕ → AudioEncoder → AudioEncoder
  store timestamp shard e =
      let n = e.sequence_number in
      let first = n % nr_data_shards == 0 in
      record e {
        sequence_number = (n + 1) % 2 ^ 16;
        base_sequence_number = if first then n else e.base_sequence_number;
        base_timestamp = if first then timestamp else e.base_timestamp;
        shards = set e.shards (n % nr_data_shards) shard;
      }

  -- `fec_encoder.encode` over the cropped shards; an error is only logged.
  unfoldable pub encode_shards : ℕ → AudioEncoder → Result AudioEncoder
  encode_shards size e = do
    assert (fits size e.shards)
    let answer = encode e.fec_encoder (map (take size) e.shards)
    ok (record e { fec_encoder = answer.0; shards = write_back e.shards answer.1 })

  -- The parity shards after the last packet of a group
  unfoldable pub send_parity : (ℕ → Bool) → ℕ → AudioEncoder → Result (AudioEncoder × List (List ℕ))
  send_parity accepts len e =
      let (fec, ready) = reset e.fec_encoder in
      if ready
      then (do
        sent ←
            parity_shards (drop nr_data_shards e.shards) 0 e.sequence_number e.base_sequence_number
              e.base_timestamp len accepts
        ok (
          record e { fec_encoder = fec; shards = take nr_data_shards e.shards ++ sent.0 },
          sent.1,
        ))
      else ok (record e { fec_encoder = reset_force fec }, [])

  -- After the data packet, and its parity packets if it completes the group
  unfoldable pub sent_data :
      Round → ℕ → List ℕ → AudioEncoder → Result (AudioEncoder × (List (List ℕ) × Bool))
  sent_data r len packet e =
      if e.sequence_number % nr_data_shards == 0
      then (send_parity r.accepts len e >>= λ sent. ok (sent.0, (packet ∷ sent.1, true)))
      else ok (e, (packet ∷ [], true))

  -- The rest of a round, once there is a payload: the packets sent, and whether the loop goes on.
  unfoldable pub send_frame :
      Round → List ℕ → AudioEncoder → Result (AudioEncoder × (List (List ℕ) × Bool))
  send_frame r payload e =
      let timestamp = r.elapsed / 11 % 2 ^ 32 in
      let size = rtp_header_size + length payload in
      shard_at e.shards (e.sequence_number % nr_data_shards) >>= λ s.
      (let s' = write_data_packet s e.sequence_number timestamp payload in
        let e' = store timestamp s' e in
        crop s' size >>= λ packet. elim (r.accepts 0) [
          | true ↦ encode_shards size e' >>= sent_data r (length payload) packet
          | false ↦ ok (e', ([], false))
        ])

  -- A payload that cannot be encrypted is passed over.
  unfoldable pub send_payload :
      Round → AudioEncoder → Result (List ℕ) → Result (AudioEncoder × (List (List ℕ) × Bool))
  send_payload r e (ok payload) = send_frame r payload e
  send_payload r e err = ok (e, ([], true))
  send_payload r e panic = panic

  -- A round of the loop; a frame that cannot be encoded is passed over.
  unfoldable pub round :
      Bool → Round → AudioEncoder → Result (AudioEncoder × (List (List ℕ) × Bool))
  round encrypt r e = elim r.encoded [
    | none ↦ ok (e, ([], true))
    | some encoded ↦ send_payload r e (payload_of encrypt r.keys e.sequence_number encoded)
  ]

  -- The loop of `run` over the frames that come, and the packets that it sends
  unfoldable pub run : Bool → List Round → AudioEncoder → Result (List (List ℕ))
  run encrypt [] e = ok []
  run encrypt (r ∷ rs) e =
      round encrypt r e >>= λ answer. go_on answer.1.1 answer.1.0 (run encrypt rs answer.0)
