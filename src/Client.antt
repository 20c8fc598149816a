-- ===== src/Client.antt =====
-- The object client (S3Client in src/s3_reader.cpp and include/nanos3reader/s3_reader.h): its
-- constructor and its methods head, read_range, list and put, on top of run_request.
pub mod Calls
pub mod Construct
pub mod Read
pub mod List
pub mod Put
pub mod Refusal
pub mod Replies
