-- ===== src/Control/Input/Mouse.antt =====
-- control/input/mouse.rs: the mouse's events.
use moonshine.Common.{ℕ, not, List, ltb, ◌==◌, Option, none, some, length, if◌then◌else◌}
use moonshine.Common.Int.{ℤ}
use moonshine.Common.Bytes.{index, i16_be}
use moonshine.Common.Results.{Result, ok, ◌>>=◌, ◌>>◌, ensure, ok_or}

-- `MouseMoveAbsolute`
pub record MouseMoveAbsolute : Type 0 where
  pub x : ℤ
  pub y : ℤ
  pub screen_width : ℤ
  pub screen_height : ℤ

unfoldable pub move_absolute_from_bytes : List ℕ → Result MouseMoveAbsolute
move_absolute_from_bytes buffer = do
  ensure (not (ltb (length buffer) 10))
  x ← i16_be buffer 0
  y ← i16_be buffer 2
  screen_width ← i16_be buffer 6
  screen_height ← i16_be buffer 8
  ok record { x = x; y = y; screen_width = screen_width; screen_height = screen_height }

-- `MouseMoveRelative`
pub record MouseMoveRelative : Type 0 where
  pub x : ℤ
  pub y : ℤ

unfoldable pub move_relative_from_bytes : List ℕ → Result MouseMoveRelative
move_relative_from_bytes buffer = do
  ensure (not (ltb (length buffer) 4))
  x ← i16_be buffer 0
  y ← i16_be buffer 2
  ok record { x = x; y = y }

pub data MouseButton : Type 0 where
  left_button : MouseButton
  middle_button : MouseButton
  right_button : MouseButton
  side_button : MouseButton
  extra_button : MouseButton

unfoldable pub button_from_repr : ℕ → Option MouseButton
button_from_repr code =
    if code == 1
    then some left_button
    else if code == 2
    then some middle_button
    else if code == 3
    then some right_button
    else if code == 4
    then some side_button
    else if code == 5
    then some extra_button
    else none

-- `MouseButton::from_bytes`
unfoldable pub button_from_bytes : List ℕ → Result MouseButton
button_from_bytes buffer = do
  ensure (not (ltb (length buffer) 1))
  code ← index buffer 0
  ok_or (button_from_repr code)

-- `From<MouseButton> for u32`: the evdev code
unfoldable pub button_code : MouseButton → ℕ
button_code left_button = 0x110
button_code middle_button = 0x112
button_code right_button = 0x111
button_code side_button = 0x113
button_code extra_button = 0x114

-- `MouseScrollVertical` and `MouseScrollHorizontal`
pub record MouseScroll : Type 0 where
  pub amount : ℤ

unfoldable pub scroll_from_bytes : List ℕ → Result MouseScroll
scroll_from_bytes buffer = do
  ensure (not (ltb (length buffer) 2))
  amount ← i16_be buffer 0
  ok record { amount = amount }
