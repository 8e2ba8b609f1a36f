-- ===== src/Storage/File/Records.antt =====
-- storage/headers.go: the records as the bytes that `unsafe` reads them from, with the offsets and
-- sizes of the Go layout.
use textiplex.Prelude.{ℕ, ◌^◌, ◌<◌, ◌≡◌, List, [], ◌∷◌, ◌++◌, length, take, drop}
use textiplex.Bytes.{Bytes}
use textiplex.Storage.Headers.{
  Header, FieldHeader, PostingListHeader, TokenFrequencyEntry, RawValue, Token, DocumentLengthEntry,
  DocumentId, max_raw_value_size,
}
use textiplex.Storage.File.Endian.{Endian, read_at}

abbrev pub header_size : ℕ
header_size = 56

abbrev pub field_header_size : ℕ
field_header_size = 48

abbrev pub posting_list_header_size : ℕ
posting_list_header_size = 16

abbrev pub token_frequency_entry_size : ℕ
token_frequency_entry_size = 8

abbrev pub token_size : ℕ
token_size = 160

abbrev pub document_length_entry_size : ℕ
document_length_entry_size = 8

abbrev pub document_id_size : ℕ
document_id_size = 136

module _ (e : Endian) where
  unfoldable pub encode_posting_list_header : PostingListHeader → Bytes
  encode_posting_list_header h = e.put 8 h.offset ++ e.put 8 h.length

  unfoldable pub decode_posting_list_header : Bytes → PostingListHeader
  decode_posting_list_header b = record { offset = read_at e 0 8 b; length = read_at e 8 8 b }

  unfoldable pub encode_frequency : TokenFrequencyEntry → Bytes
  encode_frequency f = e.put 4 f.document_index ++ e.put 4 f.frequency

  unfoldable pub decode_frequency : Bytes → TokenFrequencyEntry
  decode_frequency b = record { document_index = read_at e 0 4 b; frequency = read_at e 4 4 b }

  unfoldable pub encode_length : DocumentLengthEntry → Bytes
  encode_length l = e.put 4 l.index ++ e.put 4 l.length

  unfoldable pub decode_length : Bytes → DocumentLengthEntry
  decode_length b = record { index = read_at e 0 4 b; length = read_at e 4 4 b }

  unfoldable pub encode_raw_value : RawValue → Bytes
  encode_raw_value v = e.put 8 v.size ++ v.store

  unfoldable pub decode_raw_value : Bytes → RawValue
  decode_raw_value b = record { size = read_at e 0 8 b; store = take max_raw_value_size (drop 8 b) }

  unfoldable pub encode_document_id : DocumentId → Bytes
  unfolding encode_raw_value
  encode_document_id d = encode_raw_value d.value

  unfoldable pub decode_document_id : Bytes → DocumentId
  unfolding decode_raw_value
  decode_document_id b = record { value = decode_raw_value b }

  unfoldable pub encode_token : Token → Bytes
  unfolding encode_raw_value
  encode_token t =
      e.put 8 t.frequency_count
      ++ (e.put 8 t.posting_list_index ++ (e.put 8 t.frequencies_index ++ encode_raw_value t.value))

  unfoldable pub decode_token : Bytes → Token
  unfolding decode_raw_value
  decode_token b = record {
    frequency_count = read_at e 0 8 b;
    posting_list_index = read_at e 8 8 b;
    frequencies_index = read_at e 16 8 b;
    value = decode_raw_value (drop 24 b);
  }

  unfoldable pub decode_header : Bytes → Header
  decode_header b = record {
    magic = read_at e 0 8 b;
    version = read_at e 8 2 b;
    total_documents = read_at e 16 4 b;
    field_count = read_at e 24 8 b;
    total_posting_lists = read_at e 32 8 b;
    total_posting_lists_data_size = read_at e 40 8 b;
    total_token_frequencies = read_at e 48 8 b;
  }

  unfoldable pub decode_field_header : Bytes → FieldHeader
  decode_field_header b = record {
    hash = read_at e 0 8 b;
    avg_document_length = read_at e 8 4 b;
    total_documents_length = read_at e 16 8 b;
    token_count = read_at e 24 8 b;
    total_token_frequencies = read_at e 32 8 b;
    document_length_count = read_at e 40 8 b;
  }

-- The pieces of 8 bytes that a header is written in.
abbrev pub chunks : List Bytes → Bytes → Bytes
chunks [] tail = tail
chunks (c ∷ cs) tail = c ++ chunks cs tail

abbrev pub IsPostingListHeader : PostingListHeader → Type 0
IsPostingListHeader h = (h.offset < 2 ^ 64) × (h.length < 2 ^ 64)

abbrev pub IsFrequency : TokenFrequencyEntry → Type 0
IsFrequency f = (f.document_index < 2 ^ 32) × (f.frequency < 2 ^ 32)

abbrev pub IsLength : DocumentLengthEntry → Type 0
IsLength l = (l.index < 2 ^ 32) × (l.length < 2 ^ 32)

abbrev pub IsRawValue : RawValue → Type 0
IsRawValue v = (v.size < 2 ^ 64) × (length v.store ≡ max_raw_value_size)

abbrev pub IsDocumentId : DocumentId → Type 0
IsDocumentId d = IsRawValue d.value

abbrev pub IsToken : Token → Type 0
IsToken t =
    (t.frequency_count < 2 ^ 64)
    × (t.posting_list_index < 2 ^ 64)
    × (t.frequencies_index < 2 ^ 64)
    × IsRawValue t.value
