-- ===== src/S3Api.antt =====
-- The S3 server of internal/s3api/.
pub mod Encoding
pub mod SigV4
