-- ===== src/Control/Input.antt =====
-- control/input: what the client's input events say.
pub mod Keyboard
pub mod Remap
pub mod Float
pub mod Mouse
pub mod Touch
pub mod Gamepad
pub mod Event
pub mod Slot
