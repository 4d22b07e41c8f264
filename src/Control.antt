-- ===== src/Control.antt =====
-- session/stream/control: the control messages, the input events in them and the feedback.
pub mod Message
pub mod Encrypted
pub mod Feedback
pub mod Hdr
pub mod Loop
pub mod Input
