-- ===== src/Control/Input/Touch.antt =====
-- control/input/touch.rs: touch and pen events. A coordinate is the bit pattern of an `f32`.
use moonshine.Common.{
  ℕ, Bool, true, false, not, ◌&&◌, ◌||◌, List, ltb, ◌==◌, Option, none, some, length, if◌then◌else◌,
}
use moonshine.Common.Bytes.{index, u16_le, u32_le}
use moonshine.Common.Results.{Result, ok, ◌>>=◌, ◌>>◌, ensure, ok_or}
use moonshine.Control.Input.Float.{is_finite}

abbrev pub pointer_payload_size : ℕ
pointer_payload_size = 28

pub data PointerEventKind : Type 0 where
  hover : PointerEventKind
  down : PointerEventKind
  up : PointerEventKind
  move : PointerEventKind
  cancel : PointerEventKind
  button_only : PointerEventKind
  hover_leave : PointerEventKind
  cancel_all : PointerEventKind

unfoldable pub pointer_kind_from_repr : ℕ → Option PointerEventKind
pointer_kind_from_repr code =
    if code == 0
    then some hover
    else if code == 1
    then some down
    else if code == 2
    then some up
    else if code == 3
    then some move
    else if code == 4
    then some cancel
    else if code == 5
    then some button_only
    else if code == 6
    then some hover_leave
    else if code == 7
    then some cancel_all
    else none

-- `PointerEventKind::has_position`
unfoldable pub has_position : PointerEventKind → Bool
has_position hover = true
has_position down = true
has_position up = true
has_position move = true
has_position cancel = false
has_position button_only = false
has_position hover_leave = false
has_position cancel_all = false

pub data PenToolKind : Type 0 where
  unknown_tool : PenToolKind
  pen_tool : PenToolKind
  eraser : PenToolKind

unfoldable pub tool_from_repr : ℕ → Option PenToolKind
tool_from_repr code =
    if code == 0
    then some unknown_tool
    else if code == 1
    then some pen_tool
    else if code == 2
    then some eraser
    else none

-- `Touch`
pub record TouchEvent : Type 0 where
  pub event_kind : PointerEventKind
  pub pointer_id : ℕ
  pub x : ℕ
  pub y : ℕ

-- `Touch::from_bytes`
unfoldable pub touch_from_bytes : List ℕ → Result TouchEvent
touch_from_bytes buffer = do
  ensure (not (ltb (length buffer) pointer_payload_size))
  kind_code ← index buffer 0
  event_kind ← ok_or (pointer_kind_from_repr kind_code)
  x ← u32_le buffer 8
  y ← u32_le buffer 12
  ensure (not (has_position event_kind && (not (is_finite x) || not (is_finite y))))
  pointer_id ← u32_le buffer 4
  ok record { event_kind = event_kind; pointer_id = pointer_id; x = x; y = y }

-- `Pen`
pub record Pen : Type 0 where
  pub event_kind : PointerEventKind
  pub tool_kind : PenToolKind
  pub buttons : ℕ
  pub x : ℕ
  pub y : ℕ
  pub pressure_or_distance : ℕ
  pub rotation : ℕ
  pub tilt : ℕ

-- `Pen::from_bytes`
unfoldable pub pen_from_bytes : List ℕ → Result Pen
pen_from_bytes buffer = do
  ensure (not (ltb (length buffer) pointer_payload_size))
  kind_code ← index buffer 0
  event_kind ← ok_or (pointer_kind_from_repr kind_code)
  tool_code ← index buffer 1
  tool_kind ← ok_or (tool_from_repr tool_code)
  x ← u32_le buffer 4
  y ← u32_le buffer 8
  pressure_or_distance ← u32_le buffer 12
  ensure (
      not (
        has_position event_kind
        && (not (is_finite x) || not (is_finite y) || not (is_finite pressure_or_distance))))
  buttons ← index buffer 2
  rotation ← u16_le buffer 16
  tilt ← index buffer 18
  ok record {
    event_kind = event_kind;
    tool_kind = tool_kind;
    buttons = buttons;
    x = x;
    y = y;
    pressure_or_distance = pressure_or_distance;
    rotation = rotation;
    tilt = tilt;
  }
