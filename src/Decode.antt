-- ===== src/Decode.antt =====
-- target-i386/decode.h, decode-table.c and decode.c: the instruction decoder.
pub mod OpCode
pub mod State
pub mod Run
pub mod Fetch
pub mod Insn
pub mod Tables
pub mod Length
pub mod Tests
