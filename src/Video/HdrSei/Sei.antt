-- ===== src/Video/HdrSei/Sei.antt =====
-- hdr_sei.rs, `build_sei_nal`: a reader that follows the syntax of SEI messages gets the payload back.
use moonshine.Common.{
  ℕ, zero, suc, ◌+◌, ◌-◌, ◌≤◌, ◌≡◌, refl, ap, ◌∙◌, Bool, true, false, List, [], ◌∷◌, ◌++◌, Option,
  none, some, length, take, drop, ◌==◌, if◌then◌else◌, arith, take-append, drop-append,
}
use native.Mathlib.Nat.{zero-add}
use moonshine.Video.HdrSei.{push_long, sei_msg, nal_header, build_sei_nal, rbsp_escape}
use moonshine.Video.HdrSei.Escape.{unescape_from, unescape-rbsp_escape}

-- The sum of the bytes up to the first that is not 0xff, and what follows it.
unfoldable pub read_long : ℕ → List ℕ → Option (ℕ × List ℕ)
read_long sum [] = none
read_long sum (b ∷ bytes) =
    let more = read_long (sum + 255) bytes in if b == 255 then more else some (sum + b, bytes)

read-push_long :
    (rounds n sum : ℕ) (rest : List ℕ)
    → n ≤ rounds
    → read_long sum (push_long rounds n ++ rest) ≡ some (sum + n, rest)
unfolding push_long read_long
read-push_long zero n sum rest h = ground arith
read-push_long (suc rounds) n sum rest h =
    ground (arith, read-push_long rounds (n - 255) (sum + 255) rest)

-- What a reader makes of an escaped message: its type, its payload and what is left behind it.
pub record Sei : Type 0 where
  pub payload_type : ℕ
  pub payload : List ℕ
  pub trailing : List ℕ

read_message : List ℕ → Option Sei
read_message bytes = elim (read_long 0 bytes) [
  | none ↦ none
  | some (payload_type, rest) ↦ elim (read_long 0 rest) [
    | none ↦ none
    | some (size, body) ↦ some (record {
      payload_type = payload_type;
      payload = take size body;
      trailing = drop size body;
    })
  ]
]

unfoldable pub read_sei : List ℕ → Option Sei
unfolding read_message
read_sei escaped = read_message (unescape_from 0 escaped)

read_message-sei_msg :
    (payload_type : ℕ) (payload : List ℕ)
    → read_message (sei_msg payload_type payload)
      ≡ some (record { payload_type = payload_type; payload = payload; trailing = 0x80 ∷ [] })
unfolding read_message sei_msg
read_message-sei_msg payload_type payload =
    let size = length payload in
    rw
      (
        read-push_long payload_type payload_type 0 (push_long size size ++ (payload ++ 0x80 ∷ []))
            (omega arith),
        read-push_long size size 0 (payload ++ 0x80 ∷ []) (omega arith),
        zero-add payload_type,
        zero-add size,
        take-append payload (0x80 ∷ []),
        drop-append payload (0x80 ∷ []),
        read_message,
      )
      refl

read_sei-escaped :
    (payload_type : ℕ) (payload : List ℕ)
    → read_sei (rbsp_escape (sei_msg payload_type payload))
      ≡ some (record { payload_type = payload_type; payload = payload; trailing = 0x80 ∷ [] })
unfolding read_sei
read_sei-escaped payload_type payload =
    ap read_message (unescape-rbsp_escape (sei_msg payload_type payload))
    ∙ read_message-sei_msg payload_type payload

-- Of the NAL unit that `build_sei_nal` makes, the bytes behind the start code and the NAL header,
-- unescaped and read by the syntax of SEI messages, are the payload type, the whole payload whatever
-- its length, and the trailing stop bit.
pub build_sei_nal-readable :
    (payload_type : ℕ) (payload : List ℕ) (is_hevc : Bool)
    → read_sei (drop (4 + length (nal_header is_hevc)) (build_sei_nal payload_type payload is_hevc))
      ≡ some (record { payload_type = payload_type; payload = payload; trailing = 0x80 ∷ [] })
unfolding build_sei_nal
build_sei_nal-readable payload_type payload true = read_sei-escaped payload_type payload
build_sei_nal-readable payload_type payload false = read_sei-escaped payload_type payload
