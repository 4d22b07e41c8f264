-- ===== src/Control/Feedback.antt =====
-- control/feedback.rs: the packets that tell the client's gamepads what to do.
pub mod Packets
use moonshine.Common.{ℕ, ◌+◌, ◌*◌, List, [], ◌∷◌, length, set, copy_at, replicate}
use moonshine.Common.Bytes.{le16}
use moonshine.Control.Message.{
  type_code, rumble_data_type, set_rgb_led_type, set_motion_event_type, set_trigger_effect_type,
}

abbrev pub header_length : ℕ
header_length = 2 + 2

-- `RumbleCommand`
pub record RumbleCommand : Type 0 where
  pub id : ℕ
  pub low_frequency : ℕ
  pub high_frequency : ℕ

abbrev pub rumble_payload_length : ℕ
rumble_payload_length = 4 + 2 + 2 + 2

-- `RumbleCommand::as_packet`
unfoldable pub rumble_packet : RumbleCommand → List ℕ
rumble_packet c =
    let buffer = replicate (header_length + rumble_payload_length) 0 in
    let buffer = copy_at buffer 0 (le16 (type_code rumble_data_type)) in
    let buffer = copy_at buffer 2 (le16 rumble_payload_length) in
    let buffer = copy_at buffer 8 (le16 c.id) in
    let buffer = copy_at buffer 10 (le16 c.low_frequency) in
    copy_at buffer 12 (le16 c.high_frequency)

-- `SetLedCommand`
pub record SetLedCommand : Type 0 where
  pub id : ℕ
  pub rgb : ℕ × ℕ × ℕ

abbrev pub set_led_payload_length : ℕ
set_led_payload_length = 2 + 3 * 1

-- `SetLedCommand::as_packet`
unfoldable pub set_led_packet : SetLedCommand → List ℕ
set_led_packet c =
    let buffer = replicate (header_length + set_led_payload_length) 0 in
    let buffer = copy_at buffer 0 (le16 (type_code set_rgb_led_type)) in
    let buffer = copy_at buffer 2 (le16 set_led_payload_length) in
    let buffer = copy_at buffer 4 (le16 c.id) in
    let buffer = set buffer 6 (c.rgb.0) in
    let buffer = set buffer 7 (c.rgb.1) in set buffer 8 (c.rgb.2)

-- `EnableMotionEventCommand`
pub record EnableMotionEventCommand : Type 0 where
  pub id : ℕ
  pub report_rate : ℕ
  pub motion_type : ℕ

abbrev pub motion_payload_length : ℕ
motion_payload_length = 2 + 2 + 1

-- `EnableMotionEventCommand::as_packet`
unfoldable pub motion_packet : EnableMotionEventCommand → List ℕ
motion_packet c =
    let buffer = replicate (header_length + motion_payload_length) 0 in
    let buffer = copy_at buffer 0 (le16 (type_code set_motion_event_type)) in
    let buffer = copy_at buffer 2 (le16 motion_payload_length) in
    let buffer = copy_at buffer 4 (le16 c.id) in
    let buffer = copy_at buffer 6 (le16 c.report_rate) in set buffer 8 c.motion_type

-- `TriggerEffectCommand`; `left` and `right` are arrays of ten bytes.
pub record TriggerEffectCommand : Type 0 where
  pub id : ℕ
  pub trigger_event_flags : ℕ
  pub type_left : ℕ
  pub type_right : ℕ
  pub left : List ℕ
  pub right : List ℕ

abbrev pub trigger_payload_length : ℕ
trigger_payload_length = 2 + 1 + 1 + 1 + 10 * 1 + 10 * 1

-- `TriggerEffectCommand::as_packet`
unfoldable pub trigger_packet : TriggerEffectCommand → List ℕ
trigger_packet c =
    let buffer = replicate (header_length + trigger_payload_length) 0 in
    let buffer = copy_at buffer 0 (le16 (type_code set_trigger_effect_type)) in
    let buffer = copy_at buffer 2 (le16 trigger_payload_length) in
    let buffer = copy_at buffer 4 (le16 c.id) in
    let buffer = set buffer 6 c.trigger_event_flags in
    let buffer = set buffer 7 c.type_left in
    let buffer = set buffer 8 c.type_right in
    let buffer = copy_at buffer 9 c.left in copy_at buffer 19 c.right

-- `FeedbackCommand`
pub data FeedbackCommand : Type 0 where
  rumble : RumbleCommand → FeedbackCommand
  set_led : SetLedCommand → FeedbackCommand
  enable_motion_event : EnableMotionEventCommand → FeedbackCommand
  trigger_effect : TriggerEffectCommand → FeedbackCommand

-- `FeedbackCommand::as_packet`
unfoldable pub as_packet : FeedbackCommand → List ℕ
as_packet (rumble c) = rumble_packet c
as_packet (set_led c) = set_led_packet c
as_packet (enable_motion_event c) = motion_packet c
as_packet (trigger_effect c) = trigger_packet c
