-- ===== src/Crypto.antt =====
-- vc-core/src/crypto.rs: key derivation, nonces, the encryption context, the replay filter.
pub mod Aead
pub mod Nonce
pub mod Context
pub mod Replay
