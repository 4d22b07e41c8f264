-- ===== src/Audio.antt =====
-- The audio stream: moonshine-core/src/session/stream/audio.
pub mod Config
pub mod Encoder
