-- ===== src/Xml.antt =====
-- The XML reader and writer of src/s3_reader.cpp: entities, elements, and the pages of
-- ListObjectsV2.
pub mod Utf8
pub mod Entity
pub mod Element
pub mod Page
