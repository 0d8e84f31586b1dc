-- ===== src/Decode/Length.antt =====
-- How far the decoder reads, and that it stays inside the opcode tables.
pub mod Tables
pub mod Fields
pub mod Opcode
pub mod Rounds
pub mod Prefixes
pub mod Total
