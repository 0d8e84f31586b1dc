-- ===== src/Cache.antt =====
-- The inline cache of an indirect branch: three slots in the block's own code.
pub mod Code
pub mod Slots
pub mod Frame
pub mod Emission
pub mod Filling
pub mod Misses
pub mod Sequence
pub mod Fresh
pub mod Dispatch
pub mod Examples
