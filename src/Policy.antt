-- ===== src/Policy.antt =====
-- What a sandbox may reach: the manifest with its rules (internal/manifest), the file system overlay
-- (internal/fuse) and the egress firewall (internal/network) that apply them.
pub mod Manifest
pub mod Glob
pub mod Overlay
pub mod Firewall
mod Examples
