-- ===== src/Rtsp.antt =====
-- moonshine-core/src/rtsp.rs: the requests of the RTSP server.
pub mod Announce
pub mod Requests
