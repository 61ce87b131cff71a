-- ===== src/Registry.antt =====
-- The leased membership registry of internal/registry.
pub mod Types
pub mod Index
pub mod Validate
pub mod Normalize
pub mod Leases
pub mod Branches
pub mod Sound
pub mod Invariant
pub mod History
pub mod Snapshot
pub mod Follows
pub mod Revision
mod Tests
