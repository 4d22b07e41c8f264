-- ===== src/Control/Input/Event/Total.antt =====
-- Reading an input event indexes nothing out of range, whatever the client sends.
use moonshine.Common.{
  ℕ, ◌≡◌, ◌≢◌, refl, Bool, List, length, drop, arith, dec_lt, get_in, ◌⊎◌, inl, inr, Option-cases,
  take,
}
use moonshine.Common.Bytes.{of_le}
use moonshine.Common.Results.{Result, ok, err, panic, ◌>>=◌}
use moonshine.Control.Input.Keyboard.{from_bytes as key_from_bytes}
use moonshine.Control.Input.Mouse.{
  move_absolute_from_bytes, move_relative_from_bytes, button_from_bytes, scroll_from_bytes,
}
use moonshine.Control.Input.Touch.{touch_from_bytes, pen_from_bytes}
use moonshine.Control.Input.Gamepad.{
  info_from_bytes, pad_touch_from_bytes, motion_from_bytes, battery_from_bytes, update_from_bytes,
  motion_type_of,
}
use moonshine.Control.Input.Event.{
  InputEventType, InputEvent, type_from_repr, read_event, from_bytes,
}

key_quiet : (b : List ℕ) → key_from_bytes b ≢ panic
unfolding key_from_bytes
key_quiet b e = elim (dec_lt (length b) 6) [
  | yes short ↦ absurd (ground arith)
  | no long ↦ absurd (ground (arith))
]

move_absolute_quiet : (b : List ℕ) → move_absolute_from_bytes b ≢ panic
unfolding move_absolute_from_bytes
move_absolute_quiet b e = elim (dec_lt (length b) 10) [
  | yes short ↦ absurd (ground arith)
  | no long ↦ absurd (ground (arith))
]

move_relative_quiet : (b : List ℕ) → move_relative_from_bytes b ≢ panic
unfolding move_relative_from_bytes
move_relative_quiet b e = elim (dec_lt (length b) 4) [
  | yes short ↦ absurd (ground arith)
  | no long ↦ absurd (ground (arith))
]

button_quiet : (b : List ℕ) → button_from_bytes b ≢ panic
unfolding button_from_bytes
button_quiet b e = elim (dec_lt (length b) 1) [
  | yes short ↦ absurd (ground arith)
  | no long ↦ absurd (ground (arith, (get_in b 0 (omega arith)).1))
]

scroll_quiet : (b : List ℕ) → scroll_from_bytes b ≢ panic
unfolding scroll_from_bytes
scroll_quiet b e = elim (dec_lt (length b) 2) [
  | yes short ↦ absurd (ground arith)
  | no long ↦ absurd (ground (arith))
]

touch_quiet : (b : List ℕ) → touch_from_bytes b ≢ panic
unfolding touch_from_bytes
touch_quiet b e = elim (dec_lt (length b) 28) [
  | yes short ↦ absurd (ground arith)
  | no long ↦ absurd (ground (arith, (get_in b 0 (omega arith)).1))
]

pen_quiet : (b : List ℕ) → pen_from_bytes b ≢ panic
unfolding pen_from_bytes
pen_quiet b e = elim (dec_lt (length b) 28) [
  | yes short ↦ absurd (ground arith)
  | no long ↦ absurd (
      ground (
        arith,
        (get_in b 0 (omega arith)).1,
        (get_in b 1 (omega arith)).1,
        (get_in b 2 (omega arith)).1,
        (get_in b 18 (omega arith)).1,
      ))
]

info_quiet : (b : List ℕ) → info_from_bytes b ≢ panic
unfolding info_from_bytes
info_quiet b e = elim (dec_lt (length b) 8) [
  | yes short ↦ absurd (ground arith)
  | no long ↦ absurd (ground (arith, (get_in b 0 (omega arith)).1, (get_in b 1 (omega arith)).1))
]

pad_touch_quiet : (b : List ℕ) → pad_touch_from_bytes b ≢ panic
unfolding pad_touch_from_bytes
pad_touch_quiet b e = elim (dec_lt (length b) 20) [
  | yes short ↦ absurd (ground arith)
  | no long ↦ absurd (ground (arith, (get_in b 0 (omega arith)).1, (get_in b 1 (omega arith)).1))
]

motion_quiet : (b : List ℕ) → motion_from_bytes b ≢ panic
unfolding motion_from_bytes motion_type_of
motion_quiet b e = elim (dec_lt (length b) 16) [
  | yes short ↦ absurd (ground arith)
  | no long ↦ absurd (ground (arith, (get_in b 0 (omega arith)).1, (get_in b 1 (omega arith)).1))
]

battery_quiet : (b : List ℕ) → battery_from_bytes b ≢ panic
unfolding battery_from_bytes
battery_quiet b e = elim (dec_lt (length b) 4) [
  | yes short ↦ absurd (ground arith)
  | no long ↦ absurd (
      ground (
        arith,
        (get_in b 0 (omega arith)).1,
        (get_in b 1 (omega arith)).1,
        (get_in b 2 (omega arith)).1,
      ))
]

update_quiet : (b : List ℕ) → update_from_bytes b ≢ panic
unfolding update_from_bytes
update_quiet b e = elim (dec_lt (length b) 26) [
  | yes short ↦ absurd (ground arith)
  | no long ↦ absurd (ground (arith, (get_in b 10 (omega arith)).1, (get_in b 11 (omega arith)).1))
]

read_quiet :
    {A : Type 0} (m : Result A) (wrap : A → InputEvent)
    → m ≢ panic
    → (m >>= λ a. ok (wrap a)) ≢ panic
read_quiet (ok a) wrap h e = cc
read_quiet err wrap h e = cc
read_quiet panic wrap h e = h refl

read_event_quiet :
    (is_utf8 : List ℕ → Bool) (t : InputEventType) (b : List ℕ) → read_event is_utf8 t b ≢ panic
unfolding read_event
read_event_quiet is_utf8 InputEventType.key_down_type b =
    read_quiet (key_from_bytes b) InputEvent.key_down (key_quiet b)
read_event_quiet is_utf8 InputEventType.key_up_type b =
    read_quiet (key_from_bytes b) InputEvent.key_up (key_quiet b)
read_event_quiet is_utf8 InputEventType.mouse_move_absolute_type b =
    read_quiet (move_absolute_from_bytes b) InputEvent.mouse_move_absolute (move_absolute_quiet b)
read_event_quiet is_utf8 InputEventType.mouse_move_relative_type b =
    read_quiet (move_relative_from_bytes b) InputEvent.mouse_move_relative (move_relative_quiet b)
read_event_quiet is_utf8 InputEventType.mouse_button_down_type b =
    read_quiet (button_from_bytes b) InputEvent.mouse_button_down (button_quiet b)
read_event_quiet is_utf8 InputEventType.mouse_button_up_type b =
    read_quiet (button_from_bytes b) InputEvent.mouse_button_up (button_quiet b)
read_event_quiet is_utf8 InputEventType.mouse_scroll_vertical_type b =
    read_quiet (scroll_from_bytes b) InputEvent.mouse_scroll_vertical (scroll_quiet b)
read_event_quiet is_utf8 InputEventType.mouse_scroll_horizontal_type b =
    read_quiet (scroll_from_bytes b) InputEvent.mouse_scroll_horizontal (scroll_quiet b)
read_event_quiet is_utf8 InputEventType.touch_type b =
    read_quiet (touch_from_bytes b) InputEvent.touch (touch_quiet b)
read_event_quiet is_utf8 InputEventType.pen_type b =
    read_quiet (pen_from_bytes b) InputEvent.pen (pen_quiet b)
read_event_quiet is_utf8 InputEventType.gamepad_info_type b =
    read_quiet (info_from_bytes b) InputEvent.gamepad_info (info_quiet b)
read_event_quiet is_utf8 InputEventType.gamepad_touch_type b =
    read_quiet (pad_touch_from_bytes b) InputEvent.gamepad_touch (pad_touch_quiet b)
read_event_quiet is_utf8 InputEventType.gamepad_motion_type b =
    read_quiet (motion_from_bytes b) InputEvent.gamepad_motion (motion_quiet b)
read_event_quiet is_utf8 InputEventType.gamepad_battery_type b =
    read_quiet (battery_from_bytes b) InputEvent.gamepad_battery (battery_quiet b)
read_event_quiet is_utf8 InputEventType.gamepad_update_type b =
    read_quiet (update_from_bytes b) InputEvent.gamepad_update (update_quiet b)
read_event_quiet is_utf8 InputEventType.gamepad_enable_haptics_type b = λ e. cc
read_event_quiet is_utf8 InputEventType.utf8_text_type b = λ e. absurd (ground arith)

event_quiet : (is_utf8 : List ℕ → Bool) (buffer : List ℕ) → from_bytes is_utf8 buffer ≢ panic
unfolding from_bytes
event_quiet is_utf8 buffer e = elim (dec_lt (length buffer) 4) [
  | yes short ↦ absurd (ground arith)
  | no long ↦ elim (Option-cases (type_from_repr (of_le (take 4 buffer)))) [
    | inl unknown ↦ absurd (ground arith)
    | inr (t, known) ↦ absurd (ground (arith, read_event_quiet is_utf8 t (drop 4 buffer)))
  ]
]

decided : {A : Type 0} (m : Result A) → m ≢ panic → (m ≡ err) ⊎ ((a : A) × (m ≡ ok a))
decided (ok a) h = inr (a, refl)
decided err h = inl refl
decided panic h = absurd (h refl)

-- Reading an input event never panics: whatever bytes the client sends, and whatever counts as
-- UTF-8, they are an event or an error.
pub event_from_bytes_total :
    (is_utf8 : List ℕ → Bool) (buffer : List ℕ)
    → (from_bytes is_utf8 buffer ≡ err)
      ⊎ ((event : InputEvent) × (from_bytes is_utf8 buffer ≡ ok event))
event_from_bytes_total is_utf8 buffer =
    decided (from_bytes is_utf8 buffer) (event_quiet is_utf8 buffer)
