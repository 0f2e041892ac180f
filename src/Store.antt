-- ===== src/Store.antt =====
-- The object store of store/: ranges, uploads, objects, multipart uploads.
pub mod Types
pub mod Range
pub mod UploadStrategy
pub mod Multipart
pub mod Objects
pub mod Buckets
pub mod Listing
pub mod Locks
mod Tests
