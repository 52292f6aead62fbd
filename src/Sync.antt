-- ===== src/Sync.antt =====
-- internal/sync: how far the pods are from what the spec asks, and the calls that bring them closer.
pub mod Diffs
pub mod Limit
pub mod Waiting
pub mod Update
pub mod State
pub mod Deletes
pub mod Creates
pub mod Scale
