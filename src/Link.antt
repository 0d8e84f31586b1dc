-- ===== src/Link.antt =====
-- exec-all.h and target-i386/translate.c: direct jumps from one translation block to another.
pub mod State
pub mod Jump
pub mod Patch
pub mod Lands
pub mod Chained
pub mod Patched
pub mod Round
mod Tests
