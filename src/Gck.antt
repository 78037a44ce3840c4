-- ===== src/Gck.antt =====
-- The code under gck/.
pub mod Attributes
