-- ===== src/Control/Message.antt =====
-- control/mod.rs: the types of the control messages, and how a received packet is read.
pub mod Reading
use moonshine.Common.{
  ℕ, ◌+◌, ◌-◌, ◌*◌, ◌^◌, Bool, not, List, [], ◌∷◌, ◌++◌, Option, none, some, ltb, leb, ◌==◌, length,
  take, drop, slice, if◌then◌else◌,
}
use moonshine.Common.Bytes.{range, u16_le, u32_le, u32_be, le16, le32}
use moonshine.Common.Results.{Result, ok, err, ◌>>=◌, ◌>>◌, ensure, assert, ok_or}

abbrev pub encryption_tag_length : ℕ
encryption_tag_length = 16

abbrev pub minimum_encrypted_length : ℕ
minimum_encrypted_length = 4 + encryption_tag_length + 4

pub data ControlMessageType : Type 0 where
  encrypted_type : ControlMessageType
  termination_extended_type : ControlMessageType
  rumble_data_type : ControlMessageType
  hdr_mode_type : ControlMessageType
  ping_type : ControlMessageType
  loss_stats_type : ControlMessageType
  frame_stats_type : ControlMessageType
  input_data_type : ControlMessageType
  request_idr_frame_type : ControlMessageType
  invalidate_reference_frames_type : ControlMessageType
  start_b_type : ControlMessageType
  rumble_triggers_type : ControlMessageType
  set_motion_event_type : ControlMessageType
  set_rgb_led_type : ControlMessageType
  set_trigger_effect_type : ControlMessageType

-- `as u16`
unfoldable pub type_code : ControlMessageType → ℕ
type_code encrypted_type = 0x0001
type_code termination_extended_type = 0x0109
type_code rumble_data_type = 0x010b
type_code hdr_mode_type = 0x010e
type_code ping_type = 0x0200
type_code loss_stats_type = 0x0201
type_code frame_stats_type = 0x0204
type_code input_data_type = 0x0206
type_code request_idr_frame_type = 0x0302
type_code invalidate_reference_frames_type = 0x0301
type_code start_b_type = 0x0307
type_code rumble_triggers_type = 0x5500
type_code set_motion_event_type = 0x5501
type_code set_rgb_led_type = 0x5502
type_code set_trigger_effect_type = 0x5503

-- The arms of the `match`, in its order.
abbrev pub type_arms : List ControlMessageType
type_arms =
    encrypted_type ∷ termination_extended_type ∷ rumble_data_type ∷ hdr_mode_type ∷ ping_type
    ∷ loss_stats_type ∷ frame_stats_type ∷ input_data_type ∷ request_idr_frame_type
    ∷ invalidate_reference_frames_type ∷ start_b_type ∷ rumble_triggers_type ∷ set_motion_event_type
    ∷ set_rgb_led_type ∷ set_trigger_effect_type ∷ []

unfoldable pub match_type : ℕ → List ControlMessageType → Result ControlMessageType
match_type v [] = err
match_type v (t ∷ ts) = if v == type_code t then ok t else match_type v ts

-- `ControlMessageType::try_from`
unfoldable pub try_from : ℕ → Result ControlMessageType
try_from v = match_type v type_arms

-- `EncryptedControlMessage`
pub record EncryptedControlMessage : Type 0 where
  pub length : ℕ
  pub sequence_number : ℕ
  pub tag : List ℕ
  pub payload : List ℕ

pub data ControlMessage : Type 0 where
  encrypted : EncryptedControlMessage → ControlMessage
  termination_extended : ControlMessage
  rumble_data : ControlMessage
  hdr_mode : ControlMessage
  ping : ControlMessage
  loss_stats : ControlMessage
  frame_stats : ControlMessage
  input_data : List ℕ → ControlMessage
  request_idr_frame : ControlMessage
  invalidate_reference_frames : ℕ → ℕ → ControlMessage
  start_b : ControlMessage
  rumble_triggers : ControlMessage
  set_motion_event : ControlMessage
  set_rgb_led : ControlMessage
  set_trigger_effect : ControlMessage

-- The arm of `ControlMessageType::Encrypted`.
unfoldable pub read_encrypted : List ℕ → Result ControlMessage
read_encrypted buffer = do
  ensure (not (ltb (length buffer) minimum_encrypted_length))
  reported ← u16_le buffer 2
  ensure (not (ltb reported minimum_encrypted_length))
  sequence_number ← u32_le buffer 4
  tag ← range buffer 8 encryption_tag_length
  ok (
      encrypted record {
        length = reported;
        sequence_number = sequence_number;
        tag = tag;
        payload = drop (8 + encryption_tag_length) buffer;
      })

-- The arm of `ControlMessageType::InputData`; a packet of less than 8 bytes is indexed out of range.
unfoldable pub read_input_data : List ℕ → Result ControlMessage
read_input_data buffer = do
  reported ← u32_be buffer 4
  ensure (reported == length buffer - 8)
  ok (input_data (drop 8 buffer))

-- The arm of `ControlMessageType::InvalidateReferenceFrames`.
unfoldable pub read_invalidate : List ℕ → Result ControlMessage
read_invalidate buffer =
    if leb 16 (length buffer)
    then (do
      first ← u32_le buffer 4
      last ← u32_le buffer 12
      ok (invalidate_reference_frames first last))
    else ok (invalidate_reference_frames 0 (2 ^ 32 - 1))

unfoldable pub read_body : ControlMessageType → List ℕ → Result ControlMessage
read_body encrypted_type buffer = read_encrypted buffer
read_body ping_type buffer = ok ping
read_body termination_extended_type buffer = ok termination_extended
read_body rumble_data_type buffer = ok rumble_data
read_body loss_stats_type buffer = ok loss_stats
read_body frame_stats_type buffer = ok frame_stats
read_body input_data_type buffer = read_input_data buffer
read_body invalidate_reference_frames_type buffer = read_invalidate buffer
read_body request_idr_frame_type buffer = ok request_idr_frame
read_body start_b_type buffer = ok start_b
read_body hdr_mode_type buffer = ok hdr_mode
read_body rumble_triggers_type buffer = ok rumble_triggers
read_body set_motion_event_type buffer = ok set_motion_event
read_body set_rgb_led_type buffer = ok set_rgb_led
read_body set_trigger_effect_type buffer = ok set_trigger_effect

-- `ControlMessage::from_bytes`
unfoldable pub from_bytes : List ℕ → Result ControlMessage
from_bytes buffer = do
  ensure (not (ltb (length buffer) 4))
  reported ← u16_le buffer 2
  ensure (reported == length buffer - 4)
  code ← u16_le buffer 0
  kind ← try_from code
  read_body kind buffer
