-- ===== src/Control/Hdr.antt =====
-- control/mod.rs and compositor/frame.rs: the HDR and termination messages.
use moonshine.Common.{
  ℕ, ◌+◌, ◌-◌, ◌/◌, ◌^◌, ◌<◌, ◌≡◌, min, refl, Bool, true, List, [], ◌∷◌, ◌++◌, Option, none, some,
  replicate, if◌then◌else◌, arith, slice,
}
use moonshine.Common.Bytes.{le16, be32, of_le, of_be, of_le-le16, of_be-be32}
use moonshine.Common.Results.{ok}
use moonshine.Control.Message.{
  type_code, hdr_mode_type, termination_extended_type, hdr_mode, termination_extended, from_bytes,
  read_body, try_from, match_type,
}

-- `HdrMetadata`; the primaries are red, green and blue.
pub record HdrMetadata : Type 0 where
  pub red : ℕ × ℕ
  pub green : ℕ × ℕ
  pub blue : ℕ × ℕ
  pub white_point : ℕ × ℕ
  pub max_luminance : ℕ
  pub min_luminance : ℕ
  pub max_cll : ℕ
  pub max_fall : ℕ

-- `HdrMetadata::fallback`
abbrev pub fallback : HdrMetadata
fallback = record {
  red = (34000, 16000);
  green = (13250, 34500);
  blue = (7500, 3000);
  white_point = (15635, 16450);
  max_luminance = 10000000;
  min_luminance = 10;
  max_cll = 0;
  max_fall = 0;
}

-- `HdrModeState`
pub record HdrModeState : Type 0 where
  pub enabled : Bool
  pub metadata : Option HdrMetadata

-- The thirty bytes of `SS_HDR_METADATA`.
unfoldable pub metadata_bytes : HdrMetadata → List ℕ
metadata_bytes m =
    le16 (m.red.0)
    ++ le16 (m.red.1)
    ++ le16 (m.green.0)
    ++ le16 (m.green.1)
    ++ le16 (m.blue.0)
    ++ le16 (m.blue.1)
    ++ le16 (m.white_point.0)
    ++ le16 (m.white_point.1)
    ++ le16 (min (m.max_luminance / 10000) (2 ^ 16 - 1))
    ++ le16 (min m.min_luminance (2 ^ 16 - 1))
    ++ le16 m.max_cll
    ++ le16 m.max_fall
    ++ le16 0
    ++ replicate 4 0

-- `build_hdr_mode_payload`
unfoldable pub build_hdr_mode_payload : Bool → Option HdrMetadata → List ℕ
build_hdr_mode_payload enabled metadata =
    le16 (type_code hdr_mode_type)
    ++ le16 (1 + 30)
    ++ ((if enabled then 1 else 0) ∷ [])
    ++ elim metadata [ some m ↦ metadata_bytes m | none ↦ replicate 30 0 ]

-- The metadata that `send_hdr_state` sends, and its payload.
unfoldable pub sent_metadata : HdrModeState → Option HdrMetadata
sent_metadata state =
    if state.enabled then elim state.metadata [ some m ↦ some m | none ↦ some fallback ] else none

unfoldable pub hdr_state_payload : HdrModeState → List ℕ
hdr_state_payload state = build_hdr_mode_payload state.enabled (sent_metadata state)

-- `build_termination_payload`
unfoldable pub build_termination_payload : ℕ → List ℕ
build_termination_payload error_code =
    le16 (type_code termination_extended_type) ++ le16 4 ++ be32 error_code

abbrev pub server_terminated_closed : ℕ
server_terminated_closed = 0x80030023

payload_framed :
    (enabled : Bool) (metadata : Option HdrMetadata)
    → from_bytes (build_hdr_mode_payload enabled metadata) ≡ ok hdr_mode
unfolding build_hdr_mode_payload metadata_bytes from_bytes try_from match_type read_body type_code
payload_framed enabled none = refl
payload_framed enabled (some m) = refl

-- The payload of every HDR state is read as an HDR message: its length field counts the flag and
-- the metadata, whether these are the state's own, the fallback or thirty zeros.
hdr_state_payload-framed :
    (state : HdrModeState) → from_bytes (hdr_state_payload state) ≡ ok hdr_mode
unfolding hdr_state_payload
hdr_state_payload-framed state = payload_framed state.enabled (sent_metadata state)

-- The client reads the flag at byte 4, and while HDR is on the state's own luminance in nits at byte
-- 21, or the largest 16-bit number where it does not fit.
pub hdr_state_payload-luminance :
    (state : HdrModeState) (m : HdrMetadata)
    → state.enabled ≡ true
    → state.metadata ≡ some m
    → (slice (hdr_state_payload state) 4 1 ≡ 1 ∷ [])
      × (of_le (slice (hdr_state_payload state) 21 2) ≡ min (m.max_luminance / 10000) 65535)
unfolding hdr_state_payload build_hdr_mode_payload sent_metadata metadata_bytes type_code
hdr_state_payload-luminance state m on own =
    rw (on, own) (refl, of_le-le16 (min (m.max_luminance / 10000) 65535) (omega arith))

-- A termination message is read as one, and its error code, big-endian at byte 4, is the one sent.
pub termination_payload-framed :
    (error_code : ℕ)
    → error_code < 2 ^ 32
    → (from_bytes (build_termination_payload error_code) ≡ ok termination_extended)
      × (of_be (slice (build_termination_payload error_code) 4 4) ≡ error_code)
unfolding build_termination_payload from_bytes try_from match_type read_body type_code
termination_payload-framed error_code h = (refl, of_be-be32 error_code h)
