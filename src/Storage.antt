-- ===== src/Storage.antt =====
-- rust/filedrop-core/src/storage/: where files lie, and the history of transfers.
pub mod StoragePaths
pub mod History
mod Tests
