-- ===== src/Translate.antt =====
-- The translator: the emitters of single instructions and the loop over a block's instructions.
pub mod State
pub mod Jumps
pub mod Calls
pub mod Gen
pub mod Advance
pub mod Each
pub mod EachCall
pub mod Bounds
mod Tests
pub mod Return
pub mod Returning
pub mod Answer
