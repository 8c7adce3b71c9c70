-- ===== src/Identifiers.antt =====
-- The keys, names and hosts of packages/shared/pkg. Strings are lists of bytes, and those that the
-- names and hosts are cleaned and compared in are ASCII.
pub mod Keys
pub mod Names
pub mod Hosts
