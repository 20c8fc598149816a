-- ===== src/Http.antt =====
-- One signed request of the object client (run_request in src/s3_reader.cpp): its callbacks, an
-- attempt, and the retries.
pub mod Wire
pub mod Sink
pub mod Upload
pub mod Request
pub mod Retry
