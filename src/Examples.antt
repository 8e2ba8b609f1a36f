-- ===== src/Examples.antt =====
-- Tests on small storages, with bitmaps that are computed.
mod Bits
mod Merging
mod Searching
mod Scores
mod Little
mod Files
mod Ranking
mod Building
mod Directory
mod Paging
mod Numbers
