-- ===== src/Sync.antt =====
-- Sync between tabs (src/features/sync).
pub mod Message
pub mod Order
pub mod Session
pub mod Channel
pub mod Alphabet
mod Tests
