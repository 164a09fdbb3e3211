-- ===== src/Lsp.antt =====
-- The live sequence protocol, project-2/src/example.com/lsp.
pub mod Message
pub mod Status
pub mod Endpoint
pub mod Client
pub mod Info
pub mod Server
pub mod Window
pub mod Flow
pub mod Kept
pub mod Epochs
pub mod Link
mod Tests
