-- ===== src/Storage/Merge.antt =====
-- storage/merge.go: two segments become one. A panic is `none`; the writes to the file succeed.
pub mod Context
pub mod Prepare
pub mod Emit
pub mod Assemble
pub mod Plan
pub mod Emitted
pub mod Phases
pub mod Prepared
pub mod Ordered
pub mod Prepares
pub mod Aligned
pub mod Result
pub mod Rounds
pub mod Postings
pub mod Documents
pub mod Whole
pub mod Total
pub mod Returns
