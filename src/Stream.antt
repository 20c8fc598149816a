-- ===== src/Stream.antt =====
-- The read-ahead stream of src/s3_reader.cpp (class S3Streambuf): its window, its seeks, and the
-- fetch of a window.
pub mod Fetch
pub mod Buffer
pub mod Load
pub mod Factory
