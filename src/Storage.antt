-- ===== src/Storage.antt =====
-- storage/: the segment file and the operations on it.
pub mod Headers
pub mod Tokens
pub mod Segment
pub mod Merge
pub mod File
pub mod Build
