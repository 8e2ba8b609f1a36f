-- ===== src/Storage/File.antt =====
-- storage/storage.go: how a segment is written to a file and read back from its mapping.
pub mod Endian
pub mod Records
pub mod Reread
pub mod Arrays
pub mod Save
pub mod Load
pub mod Storable
pub mod Lists
pub mod Headers
pub mod Reload
pub mod Roundtrip
pub mod Fetched
pub mod Extend
pub mod Stages
pub mod Failed
pub mod Truncated
