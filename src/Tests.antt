-- ===== src/Tests.antt =====
-- Tests and the witnesses of the properties.
mod Vectors
mod Fixtures
mod Codecs
mod Signing
mod Transport
mod Sources
mod Objects
mod Listing
mod Storage
mod Streaming
mod Uploads
mod Threads
mod Directories
mod Cursor
