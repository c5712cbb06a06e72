-- ===== src/Yfs.antt =====
-- yfs_client.cc: the directory format, entries `name/inum/` one after the other, what the operations
-- on files do to their content, and the operations with the locks that they take.
pub mod Format
pub mod Digits
pub mod Entries
pub mod Bytes
pub mod Extents
pub mod Operations
pub mod Locked
pub mod Directory
pub mod Server
pub mod Sample
mod Tests
mod StoreTests
