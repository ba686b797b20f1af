-- ===== src/Flood.antt =====
-- runtime/flood.py: the queue of the Telegram calls of one account and its waits.
pub mod Limiter
pub mod Spacing
pub mod Queue
mod Tests
