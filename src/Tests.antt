-- ===== src/Tests.antt =====
-- The theorems at concrete inputs.
mod Frames
mod Video
mod Control
mod Gamepads
mod Session
mod Clients
mod HdrSei
mod Audio
mod Webserver
mod Focus
