-- ===== src/Actors.antt =====
-- runtime/actors.py: who may send a command, and how often.
pub mod Limit
pub mod Window
pub mod Quota
pub mod Notice
mod Tests
