-- ===== src/Control/Feedback/Packets.antt =====
-- The feedback packets as the reader of control messages takes them.
use moonshine.Common.{
  ℕ, ◌/◌, ◌%◌, ◌^◌, ◌<◌, ◌≡◌, refl, ◌∙◌, List, ◌∷◌, length, copy_at, replicate, slice, arith,
  slice-copy_at, slice-copy_at_before, length-copy_at, sym, ap,
}
use moonshine.Common.Bytes.{of_le, of_le-le16}
use moonshine.Common.Results.{ok}
use moonshine.Control.Message.{
  ControlMessage, type_code, set_trigger_effect_type, rumble_data, set_rgb_led, set_motion_event,
  set_trigger_effect, from_bytes, read_body, try_from, match_type,
}
use moonshine.Control.Message.Reading.{from_bytes_typed}
use moonshine.Control.Feedback.{
  FeedbackCommand, TriggerEffectCommand, rumble, set_led, enable_motion_event, trigger_effect,
  rumble_packet, set_led_packet, motion_packet, trigger_packet, as_packet,
}

-- The message that each command is meant to be.
unfoldable pub kind_of : FeedbackCommand → ControlMessage
kind_of (rumble c) = rumble_data
kind_of (set_led c) = set_rgb_led
kind_of (enable_motion_event c) = set_motion_event
kind_of (trigger_effect c) = set_trigger_effect

-- The gamepad that a command is for, and where its packet has it.
unfoldable pub gamepad_id : FeedbackCommand → ℕ
gamepad_id (rumble c) = c.id
gamepad_id (set_led c) = c.id
gamepad_id (enable_motion_event c) = c.id
gamepad_id (trigger_effect c) = c.id

unfoldable pub id_offset : FeedbackCommand → ℕ
id_offset (rumble c) = 8
id_offset (set_led c) = 4
id_offset (enable_motion_event c) = 4
id_offset (trigger_effect c) = 4

-- What the Rust types promise of a command's arrays.
unfoldable pub IsCommand : FeedbackCommand → Type 0
IsCommand (rumble c) = Unit {0}
IsCommand (set_led c) = Unit {0}
IsCommand (enable_motion_event c) = Unit {0}
IsCommand (trigger_effect c) = (length c.left ≡ 10) × (length c.right ≡ 10)

-- The two effects of a trigger packet, in the room behind its first nine bytes.
effects : TriggerEffectCommand → List ℕ
effects c = copy_at (copy_at (replicate 20 0) 0 c.left) 10 c.right

length-effects : (c : TriggerEffectCommand) → length (effects c) ≡ 20
unfolding effects
length-effects c =
    length-copy_at (copy_at (replicate 20 0) 0 c.left) 10 c.right
    ∙ length-copy_at (replicate 20 0) 0 c.left

trigger_reads : (c : TriggerEffectCommand) → from_bytes (trigger_packet c) ≡ ok set_trigger_effect
unfolding trigger_packet type_code effects read_body
trigger_reads c =
    let rest =
      c.id % 256
      ∷ c.id / 256 % 256
      ∷ c.trigger_event_flags
      ∷ c.type_left
      ∷ c.type_right
      ∷ effects c in
    let counted : length rest ≡ 25 = omega (arith, length-effects c) in
    from_bytes_typed set_trigger_effect_type 3 85 25 0 rest refl (sym counted)

-- Every feedback packet has a length field that agrees with its size and the type of its command:
-- the reader of control messages takes it as that message.
from_bytes-as_packet : (c : FeedbackCommand) → from_bytes (as_packet c) ≡ ok (kind_of c)
unfolding as_packet kind_of rumble_packet set_led_packet motion_packet trigger_packet type_code
    from_bytes try_from match_type read_body
from_bytes-as_packet (rumble c) = refl
from_bytes-as_packet (set_led c) = refl
from_bytes-as_packet (enable_motion_event c) = refl
from_bytes-as_packet (trigger_effect c) = trigger_reads c

-- The gamepad's number stands in every packet, at byte 8 of a rumble and at byte 4 of the others.
pub as_packet-id :
    (c : FeedbackCommand)
    → gamepad_id c < 2 ^ 16
    → of_le (slice (as_packet c) (id_offset c) 2) ≡ gamepad_id c
unfolding as_packet gamepad_id id_offset rumble_packet set_led_packet motion_packet trigger_packet
    type_code
as_packet-id (rumble c) h = of_le-le16 c.id h
as_packet-id (set_led c) h = of_le-le16 c.id h
as_packet-id (enable_motion_event c) h = of_le-le16 c.id h
as_packet-id (trigger_effect c) h = of_le-le16 c.id h

ten_of : (bs : List ℕ) → length bs ≡ 10 → slice (copy_at (replicate 20 0) 0 bs) 0 10 ≡ bs
ten_of bs e =
    ap (λ (n : ℕ). slice (copy_at (replicate 20 0) 0 bs) 0 n) (sym e)
    ∙ slice-copy_at (replicate 20 0) 0 bs (omega arith)

ten_at :
    (room bs : List ℕ) → length room ≡ 20 → length bs ≡ 10 → slice (copy_at room 10 bs) 10 10 ≡ bs
ten_at room bs sized e =
    ap (λ (n : ℕ). slice (copy_at room 10 bs) 10 n) (sym e) ∙ slice-copy_at room 10 bs (omega arith)

-- The two ten-byte effects of a trigger packet are read back from bytes 9 and 19.
pub trigger_packet-effects :
    (c : TriggerEffectCommand)
    → length c.left ≡ 10
    → length c.right ≡ 10
    → (slice (trigger_packet c) 9 10 ≡ c.left) × (slice (trigger_packet c) 19 10 ≡ c.right)
unfolding trigger_packet type_code
trigger_packet-effects c l r =
    let room = copy_at (replicate 20 0) 0 c.left in
    let sized : length room ≡ 20 = length-copy_at (replicate 20 0) 0 c.left in
    (
      slice-copy_at_before room 10 c.right 0 10 (omega arith) ∙ ten_of c.left l,
      ten_at room c.right sized r,
    )
