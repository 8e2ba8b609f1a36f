-- ===== src/Storage/Segment.antt =====
-- storage/storage.go: a segment in memory, and its posting lists.
use textiplex.Prelude.{
  ℕ, ◌+◌, ◌==◌, Option, none, some, List, [], ◌∷◌, length, get_elem?, slice, max, if◌then◌else◌,
  ◌>>=◌, Bool,
}
use textiplex.Bytes.{Bytes}
use textiplex.Roaring.{Roaring}
use textiplex.Storage.Headers.{
  Float32, PostingListHeader, TokenFrequencies, DocumentsLengths, DocumentId,
}
use textiplex.Storage.Tokens.{Tokens}

pub record Field : Type 0 where
  pub avg_document_length : Float32
  pub total_documents_length : ℕ
  pub tokens : Tokens
  pub total_token_frequencies_count : ℕ
  pub document_lengths : DocumentsLengths

-- `map[uint64]*Field`, in the order in which a `range` over it visits the fields.
abbrev pub Fields : Type 0
Fields = List (ℕ × Field)

unfoldable pub lookup_field : ℕ → Fields → Option Field
lookup_field h [] = none
lookup_field h ((k, f) ∷ fs) = if k == h then some f else lookup_field h fs

pub record PostingList : Type 0 where
  pub bytes : Bytes

pub record PostingLists : Type 0 where
  pub reference : Bytes
  pub headers : List PostingListHeader
  pub entries : List PostingList

-- `PostingLists.Len`
unfoldable pub posting_lists_len : PostingLists → ℕ
posting_lists_len p = max (length p.headers) (length p.entries)

unfoldable pub sum_header_lengths : List PostingListHeader → ℕ
sum_header_lengths [] = 0
sum_header_lengths (h ∷ hs) = h.length + sum_header_lengths hs

unfoldable pub sum_entry_lengths : List PostingList → ℕ
sum_entry_lengths [] = 0
sum_entry_lengths (e ∷ es) = length e.bytes + sum_entry_lengths es

-- `PostingLists.DataSize`
unfoldable pub posting_lists_data_size : PostingLists → ℕ
unfolding sum_header_lengths sum_entry_lengths
posting_lists_data_size p = elim p.headers [
  | [] ↦ sum_entry_lengths p.entries
  | h ∷ hs ↦ sum_header_lengths (h ∷ hs)
]

unfoldable pub get_by_header : Bytes → Option PostingListHeader → Option PostingList
get_by_header reference none = none
get_by_header reference (some h) =
    slice reference h.offset (h.offset + h.length) >>= λ d. some (record { bytes = d })

-- `PostingLists.Get`. A slice of the reference ends at its length, though Go lets it go on to its
-- capacity: what lies between belongs to no posting list.
unfoldable pub get_posting_list : PostingLists → ℕ → Option PostingList
unfolding get_by_header
get_posting_list p idx = elim p.headers [
  | h ∷ hs ↦ get_by_header p.reference (get_elem? (h ∷ hs) idx)
  | [] ↦ get_elem? p.entries idx
]

module _ (r : Roaring) where
  -- `PostingList.UnsafeBitmap`, which clears the destination first and again after an error
  unfoldable pub unsafe_bitmap : PostingList → r.Bitmap
  unsafe_bitmap l = elim l.bytes [
    | [] ↦ r.empty
    | d ∷ ds ↦ elim (r.from_unsafe_bytes (d ∷ ds)) [ none ↦ r.empty | some b ↦ b ]
  ]

-- The fields of the Go type but `Buffer` and `File`, which hold the mapping of the file.
pub record Storage : Type 0 where
  pub version : ℕ
  pub size : ℕ
  pub fields : Fields
  pub documents_ids : List DocumentId
  pub posting_lists : PostingLists
  pub token_frequencies : TokenFrequencies
  pub initialized : Bool
