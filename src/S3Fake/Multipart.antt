-- ===== src/S3Fake/Multipart.antt =====
-- s3fake.go: multipart uploads that are kept on disk.
pub mod Files
pub mod Operations
pub mod Assembling
pub mod Dropping
pub mod Completing
pub mod Uploading
pub mod Ids
pub mod Tests
