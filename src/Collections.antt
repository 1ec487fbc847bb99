-- ===== src/Collections.antt =====
-- The collections of the engine.
pub mod Map
