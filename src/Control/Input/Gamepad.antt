-- ===== src/Control/Input/Gamepad.antt =====
-- control/input/gamepad.rs: what the client says of its gamepads.
use moonshine.Common.{
  ℕ, not, List, ltb, ◌==◌, Option, none, some, length, if◌then◌else◌, bit_or, bit_and, Bool,
}
use moonshine.Common.Bits.{shl}
use moonshine.Common.Int.{ℤ}
use moonshine.Common.Bytes.{index, u16_le, u32_le, i16_le}
use moonshine.Common.Results.{Result, ok, err, ◌>>=◌, ◌>>◌, ensure, ok_or}
use moonshine.Control.Input.Float.{clamp_unit}

pub data GamepadKind : Type 0 where
  unknown_pad : GamepadKind
  xbox : GamepadKind
  play_station : GamepadKind
  nintendo : GamepadKind

unfoldable pub pad_kind_from_repr : ℕ → Option GamepadKind
pad_kind_from_repr code =
    if code == 0
    then some unknown_pad
    else if code == 1
    then some xbox
    else if code == 2
    then some play_station
    else if code == 3
    then some nintendo
    else none

-- `GamepadInfo`
pub record GamepadInfo : Type 0 where
  pub index : ℕ
  pub kind : GamepadKind
  pub capabilities : ℕ
  pub supported_buttons : ℕ

-- `GamepadInfo::from_bytes`
unfoldable pub info_from_bytes : List ℕ → Result GamepadInfo
info_from_bytes buffer = do
  ensure (not (ltb (length buffer) 8))
  number ← index buffer 0
  kind_code ← index buffer 1
  kind ← ok_or (pad_kind_from_repr kind_code)
  capabilities ← u16_le buffer 2
  supported_buttons ← u32_le buffer 4
  ok record {
    index = number;
    kind = kind;
    capabilities = capabilities;
    supported_buttons = supported_buttons;
  }

-- `GamepadInfo::default_for_index`
unfoldable pub default_for_index : ℕ → GamepadInfo
default_for_index number = record {
  index = number;
  kind = unknown_pad;
  capabilities = 0;
  supported_buttons = 0;
}

-- `GamepadInfo::has_capability`, the capability as its `u16`
unfoldable pub has_capability : GamepadInfo → ℕ → Bool
has_capability info capability = not (bit_and info.capabilities capability == 0)

-- `GamepadTouch`; the coordinates are bit patterns.
pub record GamepadTouch : Type 0 where
  pub index : ℕ
  pub event_type : ℕ
  pub pointer_id : ℕ
  pub x : ℕ
  pub y : ℕ
  pub pressure : ℕ

-- `GamepadTouch::from_bytes`
unfoldable pub pad_touch_from_bytes : List ℕ → Result GamepadTouch
pad_touch_from_bytes buffer = do
  ensure (not (ltb (length buffer) 20))
  number ← index buffer 0
  event_type ← index buffer 1
  pointer_id ← u32_le buffer 4
  x ← u32_le buffer 8
  y ← u32_le buffer 12
  pressure ← u32_le buffer 16
  ok record {
    index = number;
    event_type = event_type;
    pointer_id = pointer_id;
    x = clamp_unit x;
    y = clamp_unit y;
    pressure = clamp_unit pressure;
  }

-- `GamepadUpdate`
pub record GamepadUpdate : Type 0 where
  pub index : ℕ
  pub active_gamepad_mask : ℕ
  pub button_flags : ℕ
  pub left_trigger : ℕ
  pub right_trigger : ℕ
  pub left_stick : ℤ × ℤ
  pub right_stick : ℤ × ℤ

-- `GamepadUpdate::from_bytes`: the button flags are two words, at bytes 8 and 22.
unfoldable pub update_from_bytes : List ℕ → Result GamepadUpdate
update_from_bytes buffer = do
  ensure (not (ltb (length buffer) 26))
  number ← u16_le buffer 2
  active_gamepad_mask ← u16_le buffer 4
  low_flags ← u16_le buffer 8
  high_flags ← u16_le buffer 22
  left_trigger ← index buffer 10
  right_trigger ← index buffer 11
  left_x ← i16_le buffer 12
  left_y ← i16_le buffer 14
  right_x ← i16_le buffer 16
  right_y ← i16_le buffer 18
  ok record {
    index = number;
    active_gamepad_mask = active_gamepad_mask;
    button_flags = bit_or low_flags (shl high_flags 16);
    left_trigger = left_trigger;
    right_trigger = right_trigger;
    left_stick = (left_x, left_y);
    right_stick = (right_x, right_y);
  }

-- The two motion types that are accepted.
pub data MotionType : Type 0 where
  acceleration : MotionType
  gyroscope : MotionType

unfoldable pub motion_type_of : ℕ → Result MotionType
motion_type_of code = if code == 1 then ok acceleration else if code == 2 then ok gyroscope else err

-- `GamepadMotion`
pub record GamepadMotion : Type 0 where
  pub index : ℕ
  pub motion_type : MotionType
  pub x : ℕ
  pub y : ℕ
  pub z : ℕ

-- `GamepadMotion::from_bytes`
unfoldable pub motion_from_bytes : List ℕ → Result GamepadMotion
motion_from_bytes buffer = do
  ensure (not (ltb (length buffer) 16))
  number ← index buffer 0
  type_code ← index buffer 1
  motion_type ← motion_type_of type_code
  x ← u32_le buffer 4
  y ← u32_le buffer 8
  z ← u32_le buffer 12
  ok record { index = number; motion_type = motion_type; x = x; y = y; z = z }

pub data BatteryState : Type 0 where
  unknown_battery : BatteryState
  not_present : BatteryState
  discharging : BatteryState
  charging : BatteryState
  not_charging : BatteryState
  full : BatteryState
  percentage_unknown : BatteryState

unfoldable pub battery_from_repr : ℕ → Option BatteryState
battery_from_repr code =
    if code == 0
    then some unknown_battery
    else if code == 1
    then some not_present
    else if code == 2
    then some discharging
    else if code == 3
    then some charging
    else if code == 4
    then some not_charging
    else if code == 5
    then some full
    else if code == 0xFF
    then some percentage_unknown
    else none

-- `GamepadBattery`
pub record GamepadBattery : Type 0 where
  pub index : ℕ
  pub battery_state : BatteryState
  pub battery_percentage : ℕ

-- `GamepadBattery::from_bytes`
unfoldable pub battery_from_bytes : List ℕ → Result GamepadBattery
battery_from_bytes buffer = do
  ensure (not (ltb (length buffer) 4))
  number ← index buffer 0
  state_code ← index buffer 1
  battery_state ← ok_or (battery_from_repr state_code)
  battery_percentage ← index buffer 2
  ok record {
    index = number;
    battery_state = battery_state;
    battery_percentage = battery_percentage;
  }
