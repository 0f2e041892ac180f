-- ===== src/Dav.antt =====
-- The WebDAV server of internal/dav/.
pub mod Paths
pub mod Steps
pub mod FileSystem
pub mod CopyMove
pub mod Directories
pub mod Serving
mod Tests
