-- ===== src/Webserver.antt =====
-- moonshine-core/src/webserver: the requests of clients that come over HTTP.
pub mod Query
pub mod Pairing
pub mod Launch
pub mod Info
pub mod Serve
