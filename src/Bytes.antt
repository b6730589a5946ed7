-- ===== src/Bytes.antt =====
-- Byte arrays and big-endian words: src/common.h.
pub mod Endian
pub mod Compare
