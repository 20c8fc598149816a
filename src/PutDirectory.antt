-- ===== src/PutDirectory.antt =====
-- S3Client::put_directory of src/s3_reader.cpp: the files under a directory, largest first, each sent
-- by put_file in one of several threads.
pub mod Items
pub mod Order
pub mod Threads
pub mod Tally
pub mod Joined
pub mod Whole
pub mod Ends
pub mod Reported
pub mod Refused
