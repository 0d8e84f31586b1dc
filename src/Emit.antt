-- ===== src/Emit.antt =====
-- target-i386/emit.h and target-i386/cemit-inline.c: writing machine code into memory.
pub mod Memory
pub mod Inline
pub mod Stored
pub mod Trace
