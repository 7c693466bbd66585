-- ===== src/Grounded.antt =====
-- Grounded generation: src/dext_grounded.
pub mod Types
pub mod Output
pub mod Citation
pub mod Trim
mod Tests
