-- ===== src/Listeners.antt =====
-- The plugins that listen to messages, with the rows of src/runtime/plugin_data.py that they keep:
-- private message permits, automatic replies and locks.
pub mod Tables
pub mod Rules
pub mod RuleTable
pub mod Answers
pub mod Permits
pub mod Standing
pub mod Warnings
pub mod Incoming
pub mod Found
pub mod Handlers
pub mod Safety
mod Tests
