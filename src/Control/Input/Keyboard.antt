-- ===== src/Control/Input/Keyboard.antt =====
-- control/input/keyboard.rs: Windows virtual key codes on the wire, evdev codes in the compositor.
pub mod Codes
pub mod Evdev
pub mod Laws
use moonshine.Common.{ℕ, List, ltb, ◌==◌, ◌||◌, not, length, bit_and}
use moonshine.Common.Bytes.{u16_le}
use moonshine.Common.Results.{Result, ◌>>=◌, ◌>>◌, ensure, ok_or}
use Codes.{Key, from_repr}

-- `Key::from_bytes`
unfoldable pub from_bytes : List ℕ → Result Key
from_bytes buffer = do
  ensure (not (ltb (length buffer) 6))
  wire_keycode ← u16_le buffer 1
  let keycode = bit_and wire_keycode 0x00FF
  ensure (not (keycode == 0 || keycode == 0xFF))
  ok_or (from_repr keycode)
