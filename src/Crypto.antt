-- ===== src/Crypto.antt =====
-- crypto/crypto.go, crypto/keyprovider.go and crypto/cache.go: sealing with AES-256-GCM, envelope
-- encryption under a key provider, and the cache of intermediate keys.
pub mod Entropy
pub mod Cipher
pub mod Seal
pub mod Envelope
pub mod RoundTrip
pub mod Cache
