-- ===== src/Compositor.antt =====
-- The compositor: input bookkeeping and the focus.
pub mod InputSerials
pub mod Focus
