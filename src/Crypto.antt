-- ===== src/Crypto.antt =====
-- CommonModule/encryption: the cryptographic layer above OpenSSL.
pub mod Primitives
pub mod GroupE2ee
pub mod Envelope
