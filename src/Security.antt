-- ===== src/Security.antt =====
-- The crate's `security` module (rust/filedrop-core/src/security/).
pub mod Token
pub mod Filename
pub mod FilePath
pub mod Checksum
pub mod SampleHash
mod Tests
