-- ===== src/Storage.antt =====
-- The caches in front of an object store, of chunks and of whole objects, and the upload of a file in
-- parts (packages/shared/pkg/storage).
pub mod Cache
pub mod Blob
pub mod Upload
mod Examples
