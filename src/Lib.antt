-- ===== src/Lib.antt =====
-- textiplex is a full-text search engine: documents are indexed into segment files, pairs of
-- segments are merged until one is left, and queries run on that one. This library models its
-- core.
--
-- The parts, and the files that model them:
--
-- The records: Storage, Storage/Headers and Storage/Segment have those of a segment in memory
-- and on disk (storage/headers.go, storage/storage.go). A segment has its document ids, posting
-- lists (a serialized bitmap for each token), token frequencies, and for each field a sorted
-- table of tokens, which index the other two.
--
-- The segment file: Storage/File is `SaveTo`, `PostingLists.WriteToFile` and `Load`
-- (storage/storage.go), down to the bytes. File/Records has the layout of each record
-- (storage/headers.go), File/Arrays the arrays that `unsafe.Slice` finds, File/Save the writes,
-- with the buffer of 8 bytes that the integers share, and File/Load the reads, with an error or
-- a panic as an outcome. File/Storable says what a file can hold. Reread, Headers, Lists,
-- Reload and Roundtrip lead to the round trip, Extend, Stages and Truncated to cut and extended
-- files, Fetched to the posting lists of a loaded file, Failed to what an error leaves.
-- File/Endian stands for the integers of the machine, a parameter; Examples/Little is a
-- concrete one.
--
-- Token tables: Storage/Tokens has `Tokens` and its searches (storage/storage.go).
-- Storage/Tokens/Lookup and Storage/Tokens/Iterate say what they find. The binary search that
-- the program writes out for each table is Search, once, over the comparison it makes.
--
-- The merge: Storage/Merge is `Merger.Merge` (storage/merge.go, storage/merge_bitmap.go).
-- Context holds the state of the passes, Prepare is `preparationPass`, Emit the phases 2 to 4
-- with `writeCollisionToken`, Assemble phase 5 with `addOffsetFrom`. Plan is the specification:
-- the rounds of the walks and what each stands for. Prepares, Phases and Result lead from the
-- passes to it, Whole, Total and Returns show that they return, Rounds is about one walk,
-- Postings and Documents about the posting lists.
--
-- Fuzzy terms: Levenshtein is the automaton of levenshtein/automata.go. Levenshtein/Row says
-- what a state means, Levenshtein/Automaton and Levenshtein/Term what it decides.
--
-- Queries: Query is query/clause.go, query/simple.go and query/searcher_filter.go. Query/Clause
-- has the records, Query/Range the tokens of a range, Query/Visit `Iter` and `IterCond`,
-- Query/Filter `FilterDocuments`, Query/Scoring `Scoring`. `FilterDocuments` calls `IterCond`
-- and `Iter`, which call the searches of `Tokens` and the automaton.
--
-- Scores: Query/Bm25 is query/bm25.go and fastlog/ln.go, and Query/Bm25/Accumulate the scalar
-- accumulation of query/bm5_acc_scalar.go, which reads a token's frequencies and the document
-- lengths by index or by search (Tables) and calls `Scoring.Add`. Reads and Dense say what is
-- read, Reference that unrolling changes nothing, Raised what becomes of the scores. The
-- arithmetic of `float32` is a parameter.
--
-- Building: Storage/Build is `BuildFrom` (storage/storage.go) over the documents of
-- storage/document.go. The tree of the library tidwall/btree is a parameter. Build/Laws has
-- what is documented of it. Build/Distinct and Build/Whole say that the indexes of a token are
-- in range, Build/Filled that it has an entry, Build/Merged that built segments can be merged.
--
-- Numbers: Numeric is numeric/int64.go and Numeric/Float is numeric/float64.go, whose bytes are
-- the values of tokens that ranges compare.
--
-- Paging: Reader is the part of `Reader.Query` (reader.go) behind `ResolveScores`: what it
-- skips and which ids it yields.
--
-- The directory: Writer is `Writer.Merge` (writer.go), which merges the files of a directory in
-- pairs until one is left: its names, its counter and its removals, over `Load` and `Merge`. A
-- segment that is merged into one of its own files, which is truncated while it is mapped, has
-- no outcome in the model. Writer/Files, Writer/Pairs and Writer/Rounds say what becomes of the
-- files and that the loop ends.
--
-- Bitmaps: Roaring stands for the bitmaps of github.com/RoaringBitmap/roaring, a parameter,
-- with the laws that the theorems need. Examples/Bits is a concrete one.
--
-- Examples has tests on small storages.
--
-- A Go panic is `none` of Option. A Go map is a list of pairs in the order in which a `range`
-- visits it, of any order; where the program visits one anew for each keyword, and where it
-- visits the fields that `BuildFrom` has collected, the order is a parameter. Document indexes
-- wrap at 32 bits and the cells of the automaton at 8; counts of things in memory, which Go
-- keeps in 64 bits, are plain numbers. A `float32` is its bit pattern, and its arithmetic is a
-- parameter. An index of -1 is `none`.
--
-- Fuel: the binary search has one round more than the table has tokens, which suffices; the
-- loop of `addOffsetFrom` has one more than the bitmap has documents, since each round but the
-- last takes some; `Matches` has one more than the table has tokens, since each round seeks
-- behind the last; the loop of `Writer.Merge` needs no more rounds than there are files, of
-- which each round leaves fewer.
--
-- Not modelled: the system calls on files and memory maps, which are assumed to succeed (so
-- `Load` has the errors that it finds in the bytes, and `SaveTo` and `Merge` have none; the
-- file of a merge is its sections, not its bytes, also when it is loaded again), the estimate
-- of the file's length that `BuildFrom` keeps in `Size`, the loop over the clauses that adds
-- the BM25 scores and their SIMD variant, the rest of the reader, the goroutines of the writer,
-- a slice of `Reference` beyond its length and within its capacity (which only a file with
-- wrong offsets asks for, and is out of range here), the query language, the tokenizers, and
-- the fields of a batch.
pub mod Prelude
pub mod Bytes
pub mod Search
pub mod Roaring
pub mod Storage
pub mod Numeric
pub mod Reader
pub mod Writer
pub mod Levenshtein
pub mod Query
pub mod Examples
