-- ===== src/Client.antt =====
-- src/client.rs
pub mod Builder
pub mod Connect
pub mod Attempt
pub mod Async
pub mod Resolve
pub mod Handshake
pub mod Execute
pub mod Send
