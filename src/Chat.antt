-- ===== src/Chat.antt =====
-- The chat of Virtio_Crypto_Chat/encrypted_chat: client.c, server.c and what they share.
pub mod Flow
pub mod System
pub mod Write
pub mod Block
pub mod Talk
pub mod Session
pub mod Client
pub mod Server
pub mod Guest
mod Tests
