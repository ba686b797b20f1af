-- ===== src/Supervisor.antt =====
-- src/runtime/supervisor.py: the clients that a worker keeps for the accounts of its shard.
pub mod Candidates
pub mod Reconcile
pub mod Rounds
pub mod Slots
pub mod Holding
pub mod Exclusion
pub mod Matching
pub mod Marks
pub mod Status
pub mod Invalid
pub mod Backoff
mod Tests
