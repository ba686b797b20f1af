-- ===== src/Commands.antt =====
-- The commands of runtime/plugins.py and the actors of runtime/actors.py: which command a message
-- is, who sent it, and what the dispatcher does with it.
pub mod Resolve
pub mod Longest
pub mod Roles
pub mod Dispatch
pub mod Safety
mod Tests
