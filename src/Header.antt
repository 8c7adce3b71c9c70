-- ===== src/Header.antt =====
-- The storage header: block arithmetic, build mappings, lookups, serialization and snapshots
-- (packages/shared/pkg/storage/header).
pub mod Block
pub mod Bitset
pub mod BoolBits
pub mod Mapping
pub mod Merge
pub mod Normalize
pub mod Validate
pub mod Cover
pub mod Lookup
pub mod Create
pub mod Diff
pub mod Serialize
mod Examples
