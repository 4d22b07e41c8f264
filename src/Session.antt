-- ===== src/Session.antt =====
-- The session and its manager: moonshine-core/src/session.
pub mod Manager
