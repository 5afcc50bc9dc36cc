-- ===== src/Text.antt =====
-- Decimal text of integers (std::to_string), UTF-8 and the bodies of JSON strings.
pub mod Decimal
pub mod Utf8
pub mod Hex
pub mod Escape
