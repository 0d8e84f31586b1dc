-- ===== src/Pages.antt =====
-- The page table of the guest: which pages are mapped, and with what protection.
pub mod State
pub mod Find
pub mod Flags
pub mod Single
pub mod Setting
pub mod Ranges
pub mod Answers
pub mod Checked
pub mod History
mod Tests
