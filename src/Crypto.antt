-- ===== src/Crypto.antt =====
-- The encryption layer: frontend/src/app/core/crypto and the decryption worker of the video player.
pub mod Platform
pub mod Nonce
pub mod Kasumi
pub mod Worker
pub mod Toy
mod Tests
