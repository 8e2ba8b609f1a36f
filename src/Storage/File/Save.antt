-- ===== src/Storage/File/Save.antt =====
-- `Storage.SaveTo` and `PostingLists.WriteToFile` of storage/storage.go. The writes to the file
-- succeed; the model is what the file holds at the end.
use textiplex.Prelude.{
  ℕ, ◌%◌, ◌^◌, true, List, [], ◌∷◌, ◌++◌, length, drop, replicate, if◌then◌else◌,
}
use textiplex.Bytes.{Bytes}
use textiplex.Storage.Headers.{magic_number, version_v1, max_posting_list_headers_batch}
use textiplex.Storage.Segment.{
  Storage, Field, Fields, PostingList, PostingLists, posting_lists_len, posting_lists_data_size,
}
use textiplex.Storage.Merge.Assemble.{PostingWriter, write_posting_list, flush_headers}
use textiplex.Storage.File.Endian.{Endian}
use textiplex.Storage.File.Records.{
  chunks, encode_document_id, encode_frequency, encode_length, encode_token,
  encode_posting_list_header,
}
use textiplex.Storage.File.Arrays.{encode_all}

-- `Storage.ColdInitialize`
unfoldable pub cold_initialize : Storage → Storage
cold_initialize s = record s { version = version_v1; fields = []; initialized = true }

-- `SaveTo` begins with it when the storage is not initialized.
unfoldable pub ensure_initialized : Storage → Storage
unfolding cold_initialize
ensure_initialized s = if s.initialized then s else cold_initialize s

unfoldable pub write_entries : ℕ → PostingWriter → List PostingList → PostingWriter
unfolding write_posting_list
write_entries max_headers w [] = w
write_entries max_headers w (entry ∷ entries) =
    write_entries max_headers (write_posting_list max_headers w entry.bytes) entries

abbrev pub initial_writer : PostingWriter
initial_writer = record { written = []; batch = []; offset = 0; bytes = [] }

-- `UnsafeValueBytes` and `UnsafeSliceBytes` are the bytes of the memory.
module _ (e : Endian) where
  -- `binary.NativeEndian.PutUintN`, or `copy`, into the buffer that the writes share: what is
  -- behind the integer stays.
  unfoldable pub fill : ℕ → ℕ → Bytes → Bytes
  fill w v buffer = e.put w v ++ drop w buffer

  unfoldable pub header_chunks : Storage → List Bytes
  unfolding fill posting_lists_len posting_lists_data_size
  header_chunks s =
      let magic = fill 8 magic_number (replicate 8 0) in
      let version = fill 2 s.version magic in
      let documents = fill 4 (length s.documents_ids % 2 ^ 32) version in
      let fields = fill 8 (length s.fields) documents in
      let posting_lists = fill 8 (posting_lists_len s.posting_lists) fields in
      let size = fill 8 (posting_lists_data_size s.posting_lists) posting_lists in
      let frequencies = fill 8 (length s.token_frequencies) size in
      magic ∷ version ∷ documents ∷ fields ∷ posting_lists ∷ size ∷ frequencies ∷ []

  -- What the shared buffer holds behind the header.
  unfoldable pub header_buffer : Storage → Bytes
  unfolding fill
  header_buffer s = e.put 8 (length s.token_frequencies)

  unfoldable pub field_chunks : Bytes → ℕ → Field → List Bytes
  unfolding fill
  field_chunks buffer hash f =
      let average = fill 4 f.avg_document_length buffer in
      let tokens = fill 8 (length f.tokens) average in
      let lengths = fill 8 (length f.document_lengths) tokens in
      e.put 8 hash
      ∷ average
      ∷ e.put 8 f.total_documents_length
      ∷ tokens
      ∷ e.put 8 f.total_token_frequencies_count
      ∷ lengths
      ∷ []

  unfoldable pub save_field : Bytes → ℕ → Field → Bytes
  unfolding field_chunks encode_all encode_length encode_token
  save_field buffer hash f =
      chunks (field_chunks buffer hash f)
        (encode_all (encode_length e) f.document_lengths ++ encode_all (encode_token e) f.tokens)

  unfoldable pub save_fields : Bytes → Fields → Bytes
  unfolding save_field
  save_fields buffer [] = []
  save_fields buffer ((hash, f) ∷ fs) =
      save_field buffer hash f ++ save_fields (e.put 8 (length f.document_lengths)) fs

  -- `PostingLists.WriteToFile`: with posting lists in memory, the headers go into the space that is
  -- reserved before the data.
  unfoldable pub save_posting_lists : PostingLists → Bytes
  unfolding encode_all encode_posting_list_header write_entries max_posting_list_headers_batch
      flush_headers
  save_posting_lists p = elim p.headers [
    | h ∷ hs ↦ encode_all (encode_posting_list_header e) (h ∷ hs) ++ p.reference
    | [] ↦ elim p.entries [
      | [] ↦ []
      | entry ∷ entries ↦
          let w =
            write_entries (max_posting_list_headers_batch (length (entry ∷ entries))) initial_writer
              (entry ∷ entries) in
          encode_all (encode_posting_list_header e) (flush_headers w) ++ w.bytes
    ]
  ]

  unfoldable pub save : Storage → Bytes
  unfolding header_chunks header_buffer save_fields save_posting_lists
  save s = chunks (header_chunks s) (
      encode_all (encode_document_id e) s.documents_ids
      ++ (encode_all (encode_frequency e) s.token_frequencies
          ++ (save_fields (header_buffer s) s.fields ++ save_posting_lists s.posting_lists)))

  -- `Storage.SaveTo`
  unfoldable pub save_to : Storage → Bytes
  unfolding save ensure_initialized
  save_to s = save (ensure_initialized s)
