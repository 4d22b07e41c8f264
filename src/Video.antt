-- ===== src/Video.antt =====
-- The video stream: moonshine-core/src/session/stream/video.
pub mod ShardBatch
pub mod Packetizer
pub mod Context
pub mod HdrSei
pub mod GsoSocket
