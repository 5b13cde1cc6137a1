-- ===== src/Manager.antt =====
-- The manager: its errors, the files that it edits, and the edits that it can take back.
pub mod Error
pub mod Files
pub mod Host
pub mod Hooks
pub mod Instructions
mod Tests
