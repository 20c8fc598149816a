-- ===== src/Text.antt =====
-- std::string as the list of its bytes: the standard operations that src/s3_reader.cpp calls, and
-- its own helpers on texts (trim, trim_ws, parse_u64).
mod Defs
pub mod Find
pub mod Decimal
pub mod Trim
unfoldable pub use Defs.*
