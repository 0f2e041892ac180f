-- ===== src/Metadata.antt =====
-- The package metadata: buckets, objects, chunks and direct links in an SQLite database.
pub mod Types
pub mod Sql
pub mod Table
pub mod Like
pub mod Statements
pub mod Objects
pub mod Prefixes
pub mod Buckets
pub mod Links
pub mod Operations
mod Tests
