-- ===== src/Sieve.antt =====
-- The sieve of target-i386/translate.c: the hash table of jumps and the chains of nodes behind it, by
-- which an indirect branch finds the translated code of its target without leaving the code cache.
pub mod Hash
pub mod Table
pub mod Entry
pub mod Machine
pub mod Chain
pub mod Spelling
pub mod Linking
pub mod Holding
pub mod Refinement
pub mod Dispatch
pub mod Filling
pub mod History
pub mod Tests
