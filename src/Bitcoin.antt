-- ===== src/Bitcoin.antt =====
-- The mining system of project-2/src/example.com/bitcoin.
pub mod Message
pub mod Best
pub mod Server
pub mod Miner
pub mod Programs
mod Tests
