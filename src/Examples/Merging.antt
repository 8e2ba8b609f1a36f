-- ===== src/Examples/Merging.antt =====
-- A merge of two storages that share a field, and what the theorems say of it.
use textiplex.Prelude.{
  arith, ◌||◌, slice, true, map, ℕ, ◌≡◌, refl, some, none, List, [], ◌∷◌, length, IsChain,
}
use textiplex.Bytes.{Bytes, compare_bytes, ◌≺◌}
use textiplex.Roaring.{contains}
use textiplex.Storage.Headers.{
  PostingListHeader, Token, TokenFrequencyEntry, TokenFrequencies, bytes,
}
use textiplex.Storage.Tokens.{Tokens, IsSorted}
use textiplex.Storage.Segment.{Field, Storage, PostingList}
use textiplex.Storage.Merge.Context.{unsafe_slice_bytes, Round}
use textiplex.Storage.Merge.Assemble.{SegmentFile, merge}
use textiplex.Storage.Segment.{lookup_field, get_posting_list, unsafe_bitmap}
use textiplex.Storage.Tokens.{value_is}
use textiplex.Search.Chain.{find?}
use textiplex.Storage.Merge.Context.{
  frequencies_of, rounds, count_tokens_between_collision_fields, PendingPostingList,
}
use textiplex.Storage.Merge.Assemble.{
  merged_posting_list, write_posting_lists, PostingWriter, flush_headers,
}
use textiplex.Storage.Merge.Plan.{plan, merge_order, value_of}
use textiplex.Storage.Merge.Whole.{IsWhole, IsFilled}
use textiplex.Storage.Merge.Returns.{merge-total}
use textiplex.Storage.Merge.Aligned.{PointsAt}
use textiplex.Storage.Merge.Result.{Follows, merge-PointsAt}
use textiplex.Storage.Merge.Rounds.{
  rounds-IsChain, find?-rounds, round_is, round_of, count_tokens_between_collision_fields-eq-length,
}
use textiplex.Storage.Merge.Documents.{documents, moved, contains-merged_posting_list}
use textiplex.Storage.Merge.Postings.{write_posting_lists-slice}
use textiplex.Examples.Bits.{bits, bits-IsRoaring}

abbrev pub token : Bytes → ℕ → ℕ → ℕ → Token
token value index first n = record {
  frequency_count = n;
  posting_list_index = index;
  frequencies_index = first;
  value = record { size = length value; store = value };
}

abbrev pub field : Tokens → Field
field tokens = record {
  avg_document_length = 0;
  total_documents_length = 5;
  tokens = tokens;
  total_token_frequencies_count = 3;
  document_lengths = record { index = 0; length = 5 } ∷ [];
}

abbrev entry : ℕ → ℕ → TokenFrequencyEntry
entry d n = record { document_index = d; frequency = n }

abbrev pub storage : Tokens → TokenFrequencies → List Bytes → List PostingList → Storage
storage tokens entries ids lists = record {
  version = 0;
  size = 0;
  fields = (1, field tokens) ∷ [];
  documents_ids = map (λ id. record { value = record { size = length id; store = id } }) ids;
  posting_lists = record { reference = []; headers = []; entries = lists };
  token_frequencies = entries;
  initialized = true;
}

abbrev pub storage_a : Storage
storage_a =
    storage (token (97 ∷ []) 0 0 1 ∷ token (99 ∷ []) 1 1 2 ∷ [])
      (entry 0 1 ∷ entry 0 1 ∷ entry 1 3 ∷ []) ((48 ∷ []) ∷ (49 ∷ []) ∷ [])
      (record { bytes = 7 ∷ 1 ∷ [] } ∷ record { bytes = 7 ∷ 1 ∷ 1 ∷ [] } ∷ [])

abbrev pub storage_b : Storage
storage_b =
    storage (token (98 ∷ []) 0 0 1 ∷ token (99 ∷ []) 1 1 1 ∷ []) (entry 0 2 ∷ entry 0 4 ∷ [])
      ((50 ∷ []) ∷ []) (record { bytes = 7 ∷ 1 ∷ [] } ∷ record { bytes = 7 ∷ 1 ∷ [] } ∷ [])

abbrev average : ℕ → ℕ → ℕ
average total n = total

no_file : SegmentFile
no_file = record {
  header = record {
    magic = 0;
    version = 0;
    total_documents = 0;
    field_count = 0;
    total_posting_lists = 0;
    total_posting_lists_data_size = 0;
    total_token_frequencies = 0;
  };
  document_ids = [];
  token_frequencies = [];
  sections = [];
  posting_list_headers = [];
  posting_lists_bytes = [];
}

unfoldable merged : SegmentFile
unfolding merge lookup_field compare_bytes bytes frequencies_of get_posting_list
merged = elim (merge bits average storage_a storage_b) [ some file ↦ file | none ↦ no_file ]

merge-merged : merge bits average storage_a storage_b ≡ some merged
unfolding merge lookup_field compare_bytes bytes frequencies_of get_posting_list merged
    unsafe_slice_bytes
merge-merged = refl

merge-PointsAt_example :
    (rs : List Round) × (plan storage_a storage_b (merge_order storage_a storage_b) ≡ some rs)
    × PointsAt storage_a storage_b 2 rs 0 merged.token_frequencies 2 (token (99 ∷ []) 2 2 3)
unfolding merge lookup_field compare_bytes bytes frequencies_of get_posting_list merged
    unsafe_slice_bytes
merge-PointsAt_example =
    merge-PointsAt bits average storage_a storage_b merged 2 (token (99 ∷ []) 2 2 3) (refl, tt)
      (refl, tt) merge-merged refl

abbrev tokens_a : Tokens
tokens_a = token (97 ∷ []) 0 0 1 ∷ token (99 ∷ []) 1 1 2 ∷ []

abbrev pub tokens_b : Tokens
tokens_b = token (98 ∷ []) 0 0 1 ∷ token (99 ∷ []) 1 1 1 ∷ []

tokens_a-IsSorted : IsSorted tokens_a
unfolding compare_bytes bytes
tokens_a-IsSorted = ((refl, tt), (tt, tt))

pub tokens_b-IsSorted : IsSorted tokens_b
unfolding compare_bytes bytes
tokens_b-IsSorted = ((refl, tt), (tt, tt))

rounds-IsChain_example :
    IsChain (λ r s. bytes (value_of r) ≺ bytes (value_of s)) (rounds tokens_a tokens_b)
rounds-IsChain_example = rounds-IsChain tokens_a tokens_b tokens_a-IsSorted tokens_b-IsSorted

find?-rounds_example :
    find? (round_is (99 ∷ [])) (rounds tokens_a tokens_b)
    ≡ round_of (find? (value_is (99 ∷ [])) tokens_a) (find? (value_is (99 ∷ [])) tokens_b)
find?-rounds_example = find?-rounds (99 ∷ []) tokens_a tokens_b tokens_a-IsSorted tokens_b-IsSorted

count_tokens_example :
    count_tokens_between_collision_fields tokens_a tokens_b ≡ length (rounds tokens_a tokens_b)
count_tokens_example = count_tokens_between_collision_fields-eq-length tokens_a tokens_b

abbrev both_lists : PendingPostingList
both_lists = record { index_a = some 1; index_b = some 1 }

-- The list of the shared token: documents 0 and 1 of A, and document 0 of B, which is now 2.
contains-merged_posting_list_example :
    (docs_a docs_b : bits.Bitmap) × (documents bits bits-IsRoaring 2 storage_a storage_b storage_a
        (some 1)
      ≡ some docs_a)
    × (documents bits bits-IsRoaring 2 storage_a storage_b storage_b (some 1) ≡ some docs_b)
    × (contains bits (unsafe_bitmap bits (record { bytes = 7 ∷ 1 ∷ 1 ∷ 1 ∷ [] })) 2
        ≡ (contains bits docs_a 2 || moved bits bits-IsRoaring 2 (bits.to_array docs_b) 2))
unfolding merged_posting_list get_posting_list unsafe_bitmap
contains-merged_posting_list_example =
    contains-merged_posting_list bits bits-IsRoaring 2 storage_a storage_b both_lists
      (7 ∷ 1 ∷ 1 ∷ 1 ∷ []) 2 refl

abbrev header : PostingListHeader
header = record { offset = 0; length = 4 }

abbrev written : PostingWriter
written = record { written = header ∷ []; batch = []; offset = 4; bytes = 7 ∷ 1 ∷ 1 ∷ 1 ∷ [] }

write_posting_lists-slice_example :
    slice {A = ℕ} (7 ∷ 1 ∷ 1 ∷ 1 ∷ []) 0 4 ≡ some (7 ∷ 1 ∷ 1 ∷ 1 ∷ [])
unfolding write_posting_lists flush_headers merged_posting_list get_posting_list unsafe_bitmap
write_posting_lists-slice_example =
    write_posting_lists-slice bits 2 storage_a storage_b (both_lists ∷ [])
      ((7 ∷ 1 ∷ 1 ∷ 1 ∷ []) ∷ []) written 0 header (7 ∷ 1 ∷ 1 ∷ 1 ∷ []) refl refl refl refl

storage_a-IsFilled : IsFilled storage_a
unfolding frequencies_of get_posting_list
storage_a-IsFilled =
    (((((_, refl), (_, refl)), omega arith), ((((_, refl), (_, refl)), omega arith), tt)), tt)

storage_b-IsWhole : IsWhole storage_b
unfolding frequencies_of get_posting_list
storage_b-IsWhole = ((((_, refl), (_, refl)), (((_, refl), (_, refl)), tt)), tt)

merge-total_example :
    (file : SegmentFile) × (merge bits average storage_a storage_b ≡ some file)
    × ((rs : List Round) × Follows bits average storage_a storage_b rs file)
unfolding lookup_field
merge-total_example =
    merge-total bits storage_a storage_b storage_a-IsFilled storage_b-IsWhole average (refl, tt)
      (refl, tt)
