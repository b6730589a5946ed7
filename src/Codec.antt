-- ===== src/Codec.antt =====
-- The wire formats: src/codec.c.
pub mod Cursor
pub mod Format
pub mod Body
pub mod Tx
pub mod Header
pub mod Vote
pub mod Block
mod Examples
