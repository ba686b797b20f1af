-- ===== src/Accounts.antt =====
-- src/runtime/store.py, src/runtime/gating.py and the account switches of src/database.py: the
-- admins of an account and the plugins that it runs.
pub mod Rows
pub mod Admins
pub mod AdminTable
pub mod AdminMembers
pub mod Gating
pub mod Batches
pub mod Switching
pub mod Enabled
pub mod Switched
pub mod Flipped
pub mod Overrides
pub mod Flipping
pub mod Verdict
mod Tests
