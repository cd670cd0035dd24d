-- ===== src/Transfer.antt =====
-- rust/filedrop-core/src/transfer/: sending and receiving files.
pub mod Session
pub mod Queue
pub mod Files
pub mod Decimal
pub mod Server
pub mod Client
pub mod Routes
mod Tests
