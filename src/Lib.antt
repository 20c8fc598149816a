-- ===== src/Lib.antt =====
-- nanos3reader: a client for S3 in C++ (src/s3_reader.cpp, include/nanos3reader/s3_reader.h).
--
-- The program signs HTTP requests with AWS SigV4, finds the keys for them in a chain of sources, and
-- sends them through libcurl. A seekable read-ahead stream over range requests and an object client
-- (S3Client) stand on these parts.
--
-- Texts are lists of bytes (Text), numbers are natural numbers, and machine words keep their
-- wrap-around (`% 2 ^ 32`, `% 2 ^ 64`).
--
--   Prelude, Text, Result   Lists and tests; std::string's operations, std::to_string, parse_u64, trim;
--                           the bool-with-error-text results of the C++ functions.
--   Encode                  hex_encode, uri_encode_path, uri_encode_component.
--   Sha256                  struct Sha256 and sha256_raw of the bundled backend: update, finish.
--   Sigv4                   hmac_sha256, derive_signing_key, build_authorization, over any SHA-256.
--   Xml                     append_utf8, xml_unescape, xml_escape, next_element, xml_tag,
--                           list_query, parse_list_page.
--   Uri                     split_s3_uri, the URI check of S3MinStreamFactory::open, build_endpoint.
--   World                   What the code does not compute itself: clock, environment, files,
--                           processes, libcurl with the servers behind it, the SHA-256 of OpenSSL.
--                           Its State is all that a call of these may change.
--   Credentials             parse_ini_section, load_profile, load_credential_process, load_ecs,
--                           load_imds (Sources); CredentialProvider: resolve and get (Provider).
--   Http                    run_request: sink_write and capture_etag (Sink), upload_read (Upload),
--                           one attempt (Request), the retries (Retry), is_retriable_curl and
--                           sleep_backoff's bound (Wire).
--   Client                  S3Client: the constructor (Construct), head and read_range (Read), list
--                           (List), put (Put), and what they share (Calls).
--   DiskCache               DiskCache over the files of its directory: configure, try_load, store,
--                           evict_if_needed.
--   Stream                  S3Streambuf: the fetch of a window with its retries and one redirect (Fetch);
--                           the window, the get pointer, underflow and the seeks (Buffer);
--                           load_window over the disk cache, and the stream as a cursor over an object
--                           (Load); S3MinStreamFactory (Factory).
--   Multipart               put_file's part_size_for, the number and ranges of the parts, the calls that
--                           send them, the body that completes an upload, request_failure.
--   FileHash                sha256_file_hex over the streaming hash of either backend.
--   Scheduler               The threads that can still run, and the one that runs next.
--   PutFile                 S3Client::put_file: the file's checks and the one PUT (Source), the threads of
--                           a multipart upload (Workers), its start, completion and abort (Whole).
--   PutDirectory            S3Client::put_directory: the files to send (Items), the threads that send
--                           them and the statistics (Threads), the call as a whole (Whole).
--
-- A C++ function with output parameters returns their values; one that changes shared state takes it
-- and returns the new one. One call on an object is run at a time; the threads that put_file and
-- put_directory start are interleaved.
--
-- A thread is a data type of the places where it can stand, with its live variables, and what threads
-- share is a record. A step of a thread is an access to a shared variable, or a request with its
-- retries, or in put_directory a whole put_file. The order of the steps is any function (choose, order)
-- that names the next thread; the theorems hold for all of them.
--
-- Fuel: parse_list_page takes a round for each byte and one more, which is enough, since each round
-- passes a closing tag. The loop of list over the pages has no bound in the source, and its fuel is
-- the number of pages. The retries of run_request are counted down from kClientRetries. Sha256's
-- loops run on the bytes left, or on a block's length.
--
-- The eviction of DiskCache has no bound in the source either; a round for each block and one more
-- is enough where removals work (DiskCache/Roundtrip). The fetch loop of a stream takes max_attempts
-- rounds, one for a redirect and one more (Stream/Fetch).
--
-- Behind a load, underflow returns *gptr() without a look at egptr(). Where that is past the buffer,
-- the model's read has no result, and a theorem that a read returns says that it does not happen.
--
-- A multipart upload takes five steps for each part and three for each thread at most (join_fuel), and
-- put_directory three for each file and one for each thread (senders_fuel); both are proved to be
-- enough (PutFile/Workers/Ends, PutDirectory/Ends).
--
-- Not modelled: the options of a transfer that libcurl keeps to itself (timeouts, keep-alive), the
-- error texts of the operating system, the durations that uploads report, the failures of OpenSSL's
-- hashing context, the command line tool, and the Python bindings.
pub mod Prelude
pub mod Text
pub mod Result
pub mod Encode
pub mod Xml
pub mod FileHash
pub mod Uri
pub mod Sigv4
pub mod Sha256
pub mod Http
pub mod World
pub mod Credentials
pub mod Client
pub mod DiskCache
pub mod Multipart
pub mod Scheduler
pub mod PutFile
pub mod PutDirectory
pub mod Stream
mod Tests
