-- ===== src/Ownership.antt =====
-- src/database.py: who may use an account, and the operations that move, delete and switch accounts.
pub mod Target
pub mod Transfer
pub mod Managing
pub mod Verdict
pub mod Commands
pub mod Access
pub mod Rights
pub mod Managers
mod Tests
