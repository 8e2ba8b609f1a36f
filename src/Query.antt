-- ===== src/Query.antt =====
-- query/: the clauses of a query, the tokens that each clause reaches, the documents that match, and
-- the scores by which they are sorted.
pub mod Clause
pub mod Range
pub mod Visit
pub mod Filter
pub mod Scoring
pub mod Bm25
