-- ===== src/Leases.antt =====
-- The leases of sessions in src/runtime/store.py: the control bot asks the worker to let go of an
-- account, and waits until the worker acknowledges it.
pub mod Table
pub mod Contract
pub mod View
pub mod Waiting
mod Tests
