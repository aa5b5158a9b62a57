-- ===== src/Text.antt =====
-- Text helpers of native/core/text: hexadecimal coding and JSON escaping. A text is the list of
-- its bytes.
pub mod Ascii
pub mod Hex
pub mod Json
mod Tests
