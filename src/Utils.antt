-- ===== src/Utils.antt =====
-- internal/utils: one child for each group of helpers.
pub mod Hash
pub mod Pods
pub mod Slowly
pub mod Sorts
