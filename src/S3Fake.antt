-- ===== src/S3Fake.antt =====
-- The stand-in for S3 (internal/s3fake).
pub mod Paging
pub mod Multipart
pub mod Tests
