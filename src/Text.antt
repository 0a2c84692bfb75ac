-- ===== src/Text.antt =====
-- Text: the C string library and conversion between character encodings.
pub mod Memory
pub mod Iconv
