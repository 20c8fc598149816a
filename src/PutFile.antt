-- ===== src/PutFile.antt =====
-- S3Client::put_file of src/s3_reader.cpp: a file as one PUT, or as a multipart upload whose parts are
-- sent by several threads.
pub mod Source
pub mod Accepted
pub mod Delivered
pub mod Workers
pub mod Whole
