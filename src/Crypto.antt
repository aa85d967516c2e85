-- ===== src/Crypto.antt =====
-- ffcrypto.c: the ChaCha20 block function, the keystream with its 8-byte salt record, and the
-- per-connection contexts of ffc_new, ffc_set_salt, ffc_crypt and ffc_drop.
pub mod Block
pub mod Stream
pub mod Context
pub mod Wide
pub mod Bytes
pub mod Chunks
pub mod Record
pub mod Invariant
pub mod RoundTrip
pub mod Ends
mod Tests
