-- ===== src/Blocks.antt =====
-- exec.c, exec-all.h and cpu-exec.c: translation blocks, and the two tables that find them.
pub mod Hash
pub mod State
pub mod Find
pub mod Make
pub mod Invariant
pub mod Lookup
pub mod Creation
pub mod Growth
pub mod Insertion
pub mod Ring
pub mod Relinked
pub mod Tests
