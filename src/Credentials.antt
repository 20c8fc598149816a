-- ===== src/Credentials.antt =====
-- The credential chain of src/s3_reader.cpp: profile files, helpers, metadata endpoints, and the
-- provider that caches what they give.
pub mod Ini
pub mod Json
pub mod Sources
pub mod Provider
