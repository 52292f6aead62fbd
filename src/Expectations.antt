-- ===== src/Expectations.antt =====
-- internal/utils/expectations.
pub mod Scale
pub mod Versions
