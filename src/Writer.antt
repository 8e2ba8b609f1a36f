-- ===== src/Writer.antt =====
-- `Writer.Merge` of writer.go: the segments of a directory are merged in pairs, round after round.
pub mod Files
pub mod Pairs
pub mod Rounds
use textiplex.Prelude.{
  ℕ, zero, suc, ◌+◌, ◌/◌, ◌%◌, ◌≡◌, refl, Bool, true, false, not, ◌||◌, Option, none, some, List,
  [], ◌∷◌, ◌++◌, length, map, ◌==◌, ltb, if◌then◌else◌, Ordering,
}
use textiplex.Bytes.{Bytes, compare_bytes, is_eq}
use textiplex.Roaring.{Roaring}
use textiplex.Storage.Headers.{Float32}
use textiplex.Storage.Segment.{Storage}
use textiplex.Storage.File.Endian.{Endian}
use textiplex.Storage.File.Load.{Outcome, loaded, failed, panicked, load, zero_storage}
use textiplex.Storage.Merge.Context.{FieldSection}
use textiplex.Storage.Merge.Assemble.{SegmentFile, merge}

-- A segment file: one that `SaveTo` wrote, in its bytes, or one that `Merge` wrote, in its sections.
pub data SegmentContent : Type 0 where
  saved : Bytes → SegmentContent
  merged : SegmentFile → SegmentContent

-- The files of the directory in the order of their names, in which `os.ReadDir` lists them.
abbrev pub Files : Type 0
Files = List (Bytes × SegmentContent)

pub record Directory : Type 0 where
  pub files : Files
  pub segment_counter : ℕ

abbrev pub same_name : Bytes → Bytes → Bool
same_name a b = is_eq (compare_bytes a b)

unfoldable pub lookup_file : Bytes → Files → Option SegmentContent
lookup_file name [] = none
lookup_file name ((n, c) ∷ files) = if same_name n name then some c else lookup_file name files

-- A file that is created takes the place of one with its name.
unfoldable pub put_file : Bytes → SegmentContent → Files → Files
put_file name content [] = (name, content) ∷ []
put_file name content ((n, c) ∷ files) = elim (compare_bytes name n) [
  | Ordering.lt ↦ (name, content) ∷ (n, c) ∷ files
  | Ordering.eq ↦ (name, content) ∷ files
  | Ordering.gt ↦ (n, c) ∷ put_file name content files
]

unfoldable pub remove_file : Bytes → Files → Files
remove_file name [] = []
remove_file name ((n, c) ∷ files) =
    if same_name n name then files else (n, c) ∷ remove_file name files

-- The last `k` hexadecimal digits, in upper case.
unfoldable pub hex_digits : ℕ → ℕ → Bytes
hex_digits zero n = []
hex_digits (suc k) n =
    let d = n % 16 in hex_digits k (n / 16) ++ (if ltb d 10 then 48 + d else 55 + d) ∷ []

-- `fmt.Sprintf("%016X.seg", n)`, for a counter that is not negative
unfoldable pub segment_name : ℕ → Bytes
segment_name n = hex_digits 16 n ++ 46 ∷ 115 ∷ 101 ∷ 103 ∷ []

-- What `Load` finds in the sections, less the size of the file. A file that is only a header does
-- not count as initialized.
abbrev pub storage_of : SegmentFile → Storage
storage_of f = record zero_storage {
  version = f.header.version;
  documents_ids = f.document_ids;
  token_frequencies = f.token_frequencies;
  fields =
      map
        (λ (x : FieldSection). (
          x.header.hash,
          record {
            avg_document_length = x.header.avg_document_length;
            total_documents_length = x.header.total_documents_length;
            tokens = x.tokens;
            total_token_frequencies_count = x.header.total_token_frequencies;
            document_lengths = x.lengths;
          },
        ))
        f.sections;
  posting_lists = record {
    reference = f.posting_lists_bytes;
    headers = f.posting_list_headers;
    entries = [];
  };
  initialized = not (
      length f.document_ids
        + length f.token_frequencies
        + length f.sections
        + length f.posting_list_headers
      == 0);
}

-- What a pair, a round or the call has come to: `undetermined` when a segment is merged into one of
-- its own two files, which is truncated while it is mapped.
pub data Progress : Type 0 where
  done : Directory → Progress
  failed_with : Directory → Progress
  running : Directory → Progress
  crashed : Progress
  undetermined : Progress

module _ (e : Endian) (r : Roaring) (average : ℕ → ℕ → Float32) where
  unfoldable pub load_file : Bytes → Files → Option (Outcome Storage)
  unfolding lookup_file
  load_file name files = elim (lookup_file name files) [
    | none ↦ none
    | some (saved b) ↦ some (load e zero_storage b)
    | some (merged f) ↦ some (loaded (storage_of f))
  ]

  -- The check behind each `Load`.
  unfoldable pub after_load : Directory → Option (Outcome Storage) → (Storage → Progress) → Progress
  after_load d none next = failed_with d
  after_load d (some (failed err s)) next = failed_with d
  after_load d (some panicked) next = crashed
  after_load d (some (loaded s)) next = next s

  -- Without an error both files give way to a third.
  unfoldable pub merge_loaded : Directory → Bytes → Bytes → Storage → Storage → Progress
  unfolding put_file remove_file segment_name
  merge_loaded d name_a name_b storage_a storage_b =
      let counter = d.segment_counter + 1 in
      let name = segment_name counter in
      if same_name name name_a || same_name name name_b
      then undetermined
      else elim (merge r average storage_a storage_b) [
        | none ↦ crashed
        | some file ↦ done (record {
          files = remove_file name_b (remove_file name_a (put_file name (merged file) d.files));
          segment_counter = counter;
        })
      ]

  -- The function of one pair.
  unfoldable pub merge_pair : Directory → Bytes → Bytes → Progress
  unfolding load_file after_load merge_loaded
  merge_pair d name_a name_b = after_load d (load_file name_a d.files) (λ storage_a.
      after_load d (load_file name_b d.files)
        (λ storage_b. merge_loaded d name_a name_b storage_a storage_b))

  -- One round: `slices.Chunk(dirEntries, 2)`, where a file that is left over stays. A pair that
  -- fails does not hold up the others. The workers take the pairs in this order, one by one.
  unfoldable pub merge_chunks : Files → Directory → Bool → Progress
  unfolding merge_pair
  merge_chunks [] d failing = if failing then failed_with d else done d
  merge_chunks (a ∷ []) d failing = if failing then failed_with d else done d
  merge_chunks (a ∷ b ∷ rest) d failing = elim (merge_pair d a.0 b.0) [
    | done d' ↦ merge_chunks rest d' failing
    | failed_with d' ↦ merge_chunks rest d' true
    | running d' ↦ running d'
    | crashed ↦ crashed
    | undetermined ↦ undetermined
  ]

  -- The loop, in which an error of any pair ends the call after the round.
  unfoldable pub merge_directory : ℕ → Directory → Progress
  unfolding merge_chunks
  merge_directory zero d = running d
  merge_directory (suc fuel) d =
      if length d.files == 1 then done d else elim (merge_chunks d.files d false) [
        | done d' ↦ merge_directory fuel d'
        | failed_with d' ↦ failed_with d'
        | running d' ↦ running d'
        | crashed ↦ crashed
        | undetermined ↦ undetermined
      ]

  -- On a directory without a file, `Writer.Merge` is still running after any number of
  -- rounds.
  pub merge_directory-running :
      (fuel counter : ℕ)
      → merge_directory fuel (record { files = []; segment_counter = counter })
        ≡ running (record { files = []; segment_counter = counter })
  unfolding merge_directory merge_chunks
  merge_directory-running zero counter = refl
  merge_directory-running (suc fuel) counter = merge_directory-running fuel counter
