-- ===== src/Control/Encrypted.antt =====
-- control/mod.rs: the encrypted message on its way out.
use moonshine.Common.{
  ℕ, ◌+◌, ◌/◌, ◌%◌, ◌^◌, ◌<◌, ◌≤◌, ◌≡◌, refl, ◌∙◌, false, not, List, [], ◌∷◌, ◌++◌, ◌==◌, arith,
  copy_at, replicate, length, ltb-false, leb-true,
}
use moonshine.Common.Bytes.{le16, le32, of_le-le32}
use moonshine.Common.Results.{Result, ok, ◌>>=◌, ◌>>◌, ensure}
use moonshine.Control.Message.Reading.{word, from_bytes_typed}
use moonshine.Control.Message.{
  encryption_tag_length, EncryptedControlMessage, encrypted, encrypted_type, type_code, try_from,
  match_type, read_body, read_encrypted, from_bytes,
}

-- `EncryptedControlMessage::as_bytes`
unfoldable pub as_bytes : EncryptedControlMessage → List ℕ
as_bytes m =
    le16 (type_code encrypted_type) ++ le16 m.length ++ le32 m.sequence_number ++ m.tag ++ m.payload

-- The vector of the messages that the host sends: the number, then `H` and `C` at the end.
unfoldable pub host_iv : ℕ → List ℕ
host_iv sequence_number =
    copy_at (copy_at (replicate 12 0) 0 (le32 sequence_number)) 10 (0x48 ∷ 0x43 ∷ [])

-- `encrypt` of crypto.rs, given the payload, the key and the vector: the ciphertext and its tag.
abbrev pub Encrypt : Type 0
Encrypt = List ℕ → List ℕ → List ℕ → Result (List ℕ × List ℕ)

-- `encode_control`
unfoldable pub encode_control : Encrypt → List ℕ → ℕ → List ℕ → Result (List ℕ)
encode_control encrypt key sequence_number payload = do
  ensure (length key == 16)
  sealed ← encrypt payload key (host_iv sequence_number)
  ensure (not (length (sealed.0) == 0))
  ok (
      as_bytes record {
        length = (4 + encryption_tag_length + length (sealed.0)) % 2 ^ 16;
        sequence_number = sequence_number;
        tag = sealed.1;
        payload = sealed.0;
      })

-- A message as `encode_control` fills it in.
unfoldable pub message : ℕ → List ℕ → List ℕ → EncryptedControlMessage
message n tag payload = record {
  length = 20 + length payload;
  sequence_number = n;
  tag = tag;
  payload = payload;
}

read_encrypted_lem :
    (c0 c1 l0 l1 n size t0 t1 t2 t3 t4 t5 t6 t7 t8 t9 t10 t11 t12 t13 t14 t15 : ℕ)
    (payload : List ℕ)
    → word l0 l1 ≡ size
    → 24 ≤ size
    → n < 2 ^ 32
    → read_encrypted (
        c0 ∷ c1 ∷ l0 ∷ l1 ∷ le32 n
        ++ (t0 ∷ t1 ∷ t2 ∷ t3 ∷ t4 ∷ t5 ∷ t6 ∷ t7 ∷ t8 ∷ t9 ∷ t10 ∷ t11 ∷ t12 ∷ t13 ∷ t14 ∷ t15
            ∷ payload))
      ≡ ok (
          encrypted record {
            length = size;
            sequence_number = n;
            tag =
                t0 ∷ t1 ∷ t2 ∷ t3 ∷ t4 ∷ t5 ∷ t6 ∷ t7 ∷ t8 ∷ t9 ∷ t10 ∷ t11 ∷ t12 ∷ t13 ∷ t14 ∷ t15
                ∷ [];
            payload = payload;
          })
unfolding read_encrypted
read_encrypted_lem c0 c1 l0 l1 n size t0 t1 t2 t3 t4 t5 t6 t7 t8 t9 t10 t11 t12 t13 t14 t15 payload
      e enough small =
    let whole =
      c0 ∷ c1 ∷ l0 ∷ l1 ∷ le32 n
      ++ (t0 ∷ t1 ∷ t2 ∷ t3 ∷ t4 ∷ t5 ∷ t6 ∷ t7 ∷ t8 ∷ t9 ∷ t10 ∷ t11 ∷ t12 ∷ t13 ∷ t14 ∷ t15
          ∷ payload) in
    rw
      (
        ltb-false (length whole) 24 (omega arith),
        leb-true 4 (length whole) (omega arith),
        leb-true 8 (length whole) (omega arith),
        leb-true 24 (length whole) (omega arith),
        e,
        ltb-false size 24 enough,
        of_le-le32 n small,
      )
      refl

-- A message whose length field counts the number, the tag and the payload, with a payload of four
-- bytes or more, is read back from its bytes as it was.
pub from_bytes-as_bytes :
    (n : ℕ) (tag payload : List ℕ)
    → n < 2 ^ 32
    → length tag ≡ 16
    → 4 ≤ length payload
    → 20 + length payload < 2 ^ 16
    → from_bytes (as_bytes (message n tag payload)) ≡ ok (encrypted (message n tag payload))
unfolding from_bytes as_bytes message try_from match_type read_body read_encrypted type_code
from_bytes-as_bytes n
      (t0 ∷ t1 ∷ t2 ∷ t3 ∷ t4 ∷ t5 ∷ t6 ∷ t7 ∷ t8 ∷ t9 ∷ t10 ∷ t11 ∷ t12 ∷ t13 ∷ t14 ∷ t15 ∷ [])
      payload h t p s =
    let low : word ((20 + length payload) % 256) ((20 + length payload) / 256 % 256)
        ≡ 20 + length payload =
      omega arith in
    let counted : word ((20 + length payload) % 256) ((20 + length payload) / 256 % 256)
        ≡ length (
            le32 n
            ++ (t0 ∷ t1 ∷ t2 ∷ t3 ∷ t4 ∷ t5 ∷ t6 ∷ t7 ∷ t8 ∷ t9 ∷ t10 ∷ t11 ∷ t12 ∷ t13 ∷ t14 ∷ t15
                ∷ payload)) =
      omega arith in
    from_bytes_typed encrypted_type 1 0 ((20 + length payload) % 256)
      ((20 + length payload) / 256 % 256)
      (le32 n
        ++ (t0 ∷ t1 ∷ t2 ∷ t3 ∷ t4 ∷ t5 ∷ t6 ∷ t7 ∷ t8 ∷ t9 ∷ t10 ∷ t11 ∷ t12 ∷ t13 ∷ t14 ∷ t15
            ∷ payload))
      refl counted
    ∙ read_encrypted_lem 1 0 ((20 + length payload) % 256) ((20 + length payload) / 256 % 256) n
        (20 + length payload) t0 t1 t2 t3 t4 t5 t6 t7 t8 t9 t10 t11 t12 t13 t14 t15 payload low
        (omega arith) h
from_bytes-as_bytes n tag payload h t p s = absurd (omega arith)

encode_lem :
    (encrypt : Encrypt) (key : List ℕ) (n : ℕ) (plain sealed tag : List ℕ)
    → length key ≡ 16
    → encrypt plain key (host_iv n) ≡ ok (sealed, tag)
    → 4 ≤ length sealed
    → 20 + length sealed < 2 ^ 16
    → encode_control encrypt key n plain ≡ ok (as_bytes (message n tag sealed))
unfolding encode_control message
encode_lem encrypt key n plain sealed tag k e p s =
    let sized : (4 + 16 + length sealed) % 65536 ≡ 20 + length sealed = omega arith in
    let some_bytes : (length sealed == 0) ≡ false = ground arith in
    rw (k, e, some_bytes, sized) refl

-- Where the cipher succeeds with a 16-byte tag and a ciphertext of 4 to 65515 bytes, a key of 16
-- bytes and a 32-bit number give a packet, and reading that packet gives the number, the tag and
-- the ciphertext back.
pub encode_control-readable :
    (encrypt : Encrypt) (key : List ℕ) (n : ℕ) (plain sealed tag : List ℕ)
    → length key ≡ 16
    → encrypt plain key (host_iv n) ≡ ok (sealed, tag)
    → n < 2 ^ 32
    → length tag ≡ 16
    → 4 ≤ length sealed
    → 20 + length sealed < 2 ^ 16
    → (packet : List ℕ) × (encode_control encrypt key n plain ≡ ok packet)
      × (from_bytes packet ≡ ok (encrypted (message n tag sealed)))
encode_control-readable encrypt key n plain sealed tag k e h t p s = (
  as_bytes (message n tag sealed),
  encode_lem encrypt key n plain sealed tag k e p s,
  from_bytes-as_bytes n tag sealed h t p s,
)
