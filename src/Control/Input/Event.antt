-- ===== src/Control/Input/Event.antt =====
-- control/input/mod.rs: an input event as it is read, and where it goes.
pub mod Total
use moonshine.Common.{
  ℕ, Bool, not, List, [], ◌∷◌, ltb, ◌==◌, Option, none, some, length, drop, if◌then◌else◌,
}
use moonshine.Common.Int.{ℤ}
use moonshine.Common.Bytes.{u32_le}
use moonshine.Common.Results.{Result, ok, err, ◌>>=◌, ◌>>◌, ensure, ok_or}
use moonshine.Control.Input.Keyboard.{from_bytes as key_from_bytes}
use moonshine.Control.Input.Keyboard.Codes.{Key}
use moonshine.Control.Input.Keyboard.Evdev.{to_linux_keycode}
use moonshine.Control.Input.Mouse.{
  MouseMoveAbsolute, MouseMoveRelative, MouseButton, MouseScroll, move_absolute_from_bytes,
  move_relative_from_bytes, button_from_bytes, scroll_from_bytes, button_code,
}
use moonshine.Control.Input.Touch.{
  TouchEvent, Pen, PointerEventKind, PenToolKind, touch_from_bytes, pen_from_bytes, hover, down, up,
  move, cancel, button_only, hover_leave, cancel_all,
}
use moonshine.Control.Input.Gamepad.{
  GamepadInfo, GamepadTouch, GamepadMotion, GamepadBattery, GamepadUpdate, info_from_bytes,
  pad_touch_from_bytes, motion_from_bytes, battery_from_bytes, update_from_bytes,
}

pub data InputEventType : Type 0 where
  key_down_type : InputEventType
  key_up_type : InputEventType
  mouse_move_absolute_type : InputEventType
  mouse_move_relative_type : InputEventType
  mouse_button_down_type : InputEventType
  mouse_button_up_type : InputEventType
  mouse_scroll_vertical_type : InputEventType
  mouse_scroll_horizontal_type : InputEventType
  touch_type : InputEventType
  pen_type : InputEventType
  gamepad_info_type : InputEventType
  gamepad_touch_type : InputEventType
  gamepad_motion_type : InputEventType
  gamepad_battery_type : InputEventType
  gamepad_update_type : InputEventType
  gamepad_enable_haptics_type : InputEventType
  utf8_text_type : InputEventType

-- `InputEventType::from_repr`
unfoldable pub type_from_repr : ℕ → Option InputEventType
type_from_repr code =
    if code == 0x00000003
    then some key_down_type
    else if code == 0x00000004
    then some key_up_type
    else if code == 0x00000005
    then some mouse_move_absolute_type
    else if code == 0x00000007
    then some mouse_move_relative_type
    else if code == 0x00000008
    then some mouse_button_down_type
    else if code == 0x00000009
    then some mouse_button_up_type
    else if code == 0x0000000A
    then some mouse_scroll_vertical_type
    else if code == 0x55000001
    then some mouse_scroll_horizontal_type
    else if code == 0x55000002
    then some touch_type
    else if code == 0x55000003
    then some pen_type
    else if code == 0x55000004
    then some gamepad_info_type
    else if code == 0x55000005
    then some gamepad_touch_type
    else if code == 0x55000006
    then some gamepad_motion_type
    else if code == 0x55000007
    then some gamepad_battery_type
    else if code == 0x0000000C
    then some gamepad_update_type
    else if code == 0x0000000D
    then some gamepad_enable_haptics_type
    else if code == 0x00000017
    then some utf8_text_type
    else none

pub data InputEvent : Type 0 where
  key_down : Key → InputEvent
  key_up : Key → InputEvent
  mouse_move_absolute : MouseMoveAbsolute → InputEvent
  mouse_move_relative : MouseMoveRelative → InputEvent
  mouse_button_down : MouseButton → InputEvent
  mouse_button_up : MouseButton → InputEvent
  mouse_scroll_vertical : MouseScroll → InputEvent
  mouse_scroll_horizontal : MouseScroll → InputEvent
  touch : TouchEvent → InputEvent
  pen : Pen → InputEvent
  gamepad_info : GamepadInfo → InputEvent
  gamepad_touch : GamepadTouch → InputEvent
  gamepad_motion : GamepadMotion → InputEvent
  gamepad_battery : GamepadBattery → InputEvent
  gamepad_update : GamepadUpdate → InputEvent
  gamepad_enable_haptics : InputEvent
  utf8_text : List ℕ → InputEvent

-- `CompositorInputEvent`, as far as this code sends it
pub data CompositorInputEvent : Type 0 where
  press_key : ℕ → CompositorInputEvent
  release_key : ℕ → CompositorInputEvent
  move_absolute : MouseMoveAbsolute → CompositorInputEvent
  move_relative : MouseMoveRelative → CompositorInputEvent
  press_button : ℕ → CompositorInputEvent
  release_button : ℕ → CompositorInputEvent
  scroll_vertical : ℤ → CompositorInputEvent
  scroll_horizontal : ℤ → CompositorInputEvent
  touch_down : ℕ → ℕ → ℕ → CompositorInputEvent
  touch_move : ℕ → ℕ → ℕ → CompositorInputEvent
  touch_up : ℕ → CompositorInputEvent
  touch_cancel_all : CompositorInputEvent
  pen_event : Pen → CompositorInputEvent
  type_text : List ℕ → CompositorInputEvent

-- Which channel `handle_input` sends to.
pub data Route : Type 0 where
  dropped : Route
  to_compositor : CompositorInputEvent → Route
  to_gamepads : InputEvent → Route

-- `String::from_utf8` is `is_utf8`, and the text its bytes.
unfoldable pub read_event : (List ℕ → Bool) → InputEventType → List ℕ → Result InputEvent
read_event is_utf8 key_down_type body = key_from_bytes body >>= λ key. ok (key_down key)
read_event is_utf8 key_up_type body = key_from_bytes body >>= λ key. ok (key_up key)
read_event is_utf8 mouse_move_absolute_type body =
    move_absolute_from_bytes body >>= λ e. ok (mouse_move_absolute e)
read_event is_utf8 mouse_move_relative_type body =
    move_relative_from_bytes body >>= λ e. ok (mouse_move_relative e)
read_event is_utf8 mouse_button_down_type body =
    button_from_bytes body >>= λ e. ok (mouse_button_down e)
read_event is_utf8 mouse_button_up_type body =
    button_from_bytes body >>= λ e. ok (mouse_button_up e)
read_event is_utf8 mouse_scroll_vertical_type body =
    scroll_from_bytes body >>= λ e. ok (mouse_scroll_vertical e)
read_event is_utf8 mouse_scroll_horizontal_type body =
    scroll_from_bytes body >>= λ e. ok (mouse_scroll_horizontal e)
read_event is_utf8 touch_type body = touch_from_bytes body >>= λ e. ok (touch e)
read_event is_utf8 pen_type body = pen_from_bytes body >>= λ e. ok (pen e)
read_event is_utf8 gamepad_info_type body = info_from_bytes body >>= λ e. ok (gamepad_info e)
read_event is_utf8 gamepad_touch_type body = pad_touch_from_bytes body >>= λ e. ok (gamepad_touch e)
read_event is_utf8 gamepad_motion_type body = motion_from_bytes body >>= λ e. ok (gamepad_motion e)
read_event is_utf8 gamepad_battery_type body =
    battery_from_bytes body >>= λ e. ok (gamepad_battery e)
read_event is_utf8 gamepad_update_type body = update_from_bytes body >>= λ e. ok (gamepad_update e)
read_event is_utf8 gamepad_enable_haptics_type body = ok gamepad_enable_haptics
read_event is_utf8 utf8_text_type body =
    ensure (is_utf8 body) >> (ensure (not (length body == 0)) >> ok (utf8_text body))

-- `InputEvent::from_bytes`
unfoldable pub from_bytes : (List ℕ → Bool) → List ℕ → Result InputEvent
from_bytes is_utf8 buffer = do
  ensure (not (ltb (length buffer) 4))
  code ← u32_le buffer 0
  kind ← ok_or (type_from_repr code)
  read_event is_utf8 kind (drop 4 buffer)

-- The `match event.event_kind` of a touch.
unfoldable pub route_touch : PointerEventKind → TouchEvent → Route
route_touch down e = to_compositor (touch_down e.pointer_id e.x e.y)
route_touch move e = to_compositor (touch_move e.pointer_id e.x e.y)
route_touch up e = to_compositor (touch_up e.pointer_id)
route_touch cancel e = to_compositor (touch_up e.pointer_id)
route_touch cancel_all e = to_compositor touch_cancel_all
route_touch hover e = dropped
route_touch button_only e = dropped
route_touch hover_leave e = dropped

-- `InputHandler::handle_input`
unfoldable pub handle_input : InputEvent → Route
handle_input (key_down key) = elim (to_linux_keycode key) [
  | some keycode ↦ to_compositor (press_key keycode)
  | none ↦ dropped
]
handle_input (key_up key) = elim (to_linux_keycode key) [
  | some keycode ↦ to_compositor (release_key keycode)
  | none ↦ dropped
]
handle_input (mouse_move_absolute e) = to_compositor (move_absolute e)
handle_input (mouse_move_relative e) = to_compositor (move_relative e)
handle_input (mouse_button_down b) = to_compositor (press_button (button_code b))
handle_input (mouse_button_up b) = to_compositor (release_button (button_code b))
handle_input (mouse_scroll_vertical e) = to_compositor (scroll_vertical e.amount)
handle_input (mouse_scroll_horizontal e) = to_compositor (scroll_horizontal e.amount)
handle_input (touch e) = route_touch e.event_kind e
handle_input (pen e) = to_compositor (pen_event e)
handle_input (utf8_text text) = to_compositor (type_text text)
handle_input (gamepad_info e) = to_gamepads (gamepad_info e)
handle_input (gamepad_touch e) = to_gamepads (gamepad_touch e)
handle_input (gamepad_motion e) = to_gamepads (gamepad_motion e)
handle_input (gamepad_battery e) = to_gamepads (gamepad_battery e)
handle_input (gamepad_update e) = to_gamepads (gamepad_update e)
handle_input gamepad_enable_haptics = to_gamepads gamepad_enable_haptics

-- `InputHandler::handle_raw_input`
unfoldable pub handle_raw_input : (List ℕ → Bool) → List ℕ → Result Route
handle_raw_input is_utf8 buffer = from_bytes is_utf8 buffer >>= λ e. ok (handle_input e)
