-- ===== src/Storage/Headers.antt =====
-- storage/headers.go: the records of a segment file, and the binary searches over them. A `float32`
-- is its bit pattern, an integer its value; `unsafe.Sizeof` of each record is a constant.
use textiplex.Prelude.{ℕ, ◌-◌, Bool, Option, List, ◌++◌, min, ltb, ◌==◌, length, take, replicate}
use textiplex.Bytes.{Bytes, compare_bytes}
use textiplex.Search.{binary_search}
use textiplex.Prelude.{Ordering}

abbrev pub max_posting_list_headers : ℕ
max_posting_list_headers = 5_000_000

unfoldable pub max_posting_list_headers_batch : ℕ → ℕ
max_posting_list_headers_batch l = min max_posting_list_headers l

abbrev pub magic_number : ℕ
magic_number = 0x7E7127E9

abbrev pub version_v1 : ℕ
version_v1 = 0

-- The bit pattern of a `float32`.
abbrev pub Float32 : Type 0
Float32 = ℕ

pub record Header : Type 0 where
  pub magic : ℕ
  pub version : ℕ
  pub total_documents : ℕ
  pub field_count : ℕ
  pub total_posting_lists : ℕ
  pub total_posting_lists_data_size : ℕ
  pub total_token_frequencies : ℕ

pub record FieldHeader : Type 0 where
  pub hash : ℕ
  pub avg_document_length : Float32
  pub total_documents_length : ℕ
  pub token_count : ℕ
  pub total_token_frequencies : ℕ
  pub document_length_count : ℕ

pub record PostingListHeader : Type 0 where
  pub offset : ℕ
  pub length : ℕ

pub record TokenFrequencyEntry : Type 0 where
  pub document_index : ℕ
  pub frequency : ℕ

abbrev pub TokenFrequencies : Type 0
TokenFrequencies = List TokenFrequencyEntry

abbrev pub max_raw_value_size : ℕ
max_raw_value_size = 128

-- `store` is the array `Data`, of `max_raw_value_size` bytes.
pub record RawValue : Type 0 where
  pub size : ℕ
  pub store : Bytes

-- `copy` moves as many bytes as fit and says how many; the rest of the array is zero.
unfoldable pub raw_value_from : Bytes → RawValue
raw_value_from b = record {
  size = min max_raw_value_size (length b);
  store =
      take max_raw_value_size b
      ++ replicate (max_raw_value_size - min max_raw_value_size (length b)) 0;
}

unfoldable pub bytes : RawValue → Bytes
bytes v = take (min max_raw_value_size v.size) v.store

pub record Token : Type 0 where
  pub frequency_count : ℕ
  pub posting_list_index : ℕ
  pub frequencies_index : ℕ
  pub value : RawValue

unfoldable pub compare_tokens : Token → Token → Ordering
compare_tokens a b = compare_bytes (bytes a.value) (bytes b.value)

pub record DocumentLengthEntry : Type 0 where
  pub index : ℕ
  pub length : ℕ

abbrev pub DocumentsLengths : Type 0
DocumentsLengths = List DocumentLengthEntry

pub record DocumentId : Type 0 where
  pub value : RawValue

-- `TokenFrequencies.BinarySearch`
unfoldable pub binary_search_frequencies : TokenFrequencies → ℕ → Option (ℕ × Bool)
binary_search_frequencies s doc_idx =
    binary_search (λ e. ltb e.document_index doc_idx) (λ e. e.document_index == doc_idx) s

-- `DocumentsLengths.BinarySearch`
unfoldable pub binary_search_lengths : DocumentsLengths → ℕ → Option (ℕ × Bool)
binary_search_lengths s doc_idx =
    binary_search (λ e. ltb e.index doc_idx) (λ e. e.index == doc_idx) s
