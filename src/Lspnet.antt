-- ===== src/Lspnet.antt =====
-- project-2/src/example.com/lspnet: the wrapper of UDP that drops, shortens and lengthens messages, and
-- lsp/io.go, which reads and writes messages by it.
pub mod Staff
pub mod Conn
pub mod Messages
mod Tests
