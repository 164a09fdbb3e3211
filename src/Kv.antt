-- ===== src/Kv.antt =====
-- The key-value server of project-1/src/example.com, packages clist and p1.
pub mod Clist
pub mod Store
pub mod Receiver
pub mod Dispatch
pub mod Server
mod Tests
