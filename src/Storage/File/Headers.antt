-- ===== src/Storage/File/Headers.antt =====
-- The headers of a segment file and of its fields: what `Load` reads where `SaveTo` has written
-- them, piece by piece.
use textiplex.Prelude.{
  ℕ, ◌+◌, ◌*◌, ◌%◌, ◌^◌, ◌<◌, ◌≤◌, ◌≡◌, refl, List, [], ◌∷◌, ◌++◌, length, drop, replicate, arith,
  length-append, length-drop,
}
use textiplex.Bytes.{Bytes}
use textiplex.Storage.Headers.{Header, FieldHeader, magic_number}
use textiplex.Storage.Segment.{Storage, Field, posting_lists_len, posting_lists_data_size}
use textiplex.Storage.File.Endian.{Endian, IsEndian, read_at}
use textiplex.Storage.File.Records.{chunks, decode_header, decode_field_header}
use textiplex.Storage.File.Reread.{IsChunks, read_chunk, read_whole_chunk}
use textiplex.Storage.File.Save.{fill, header_chunks, field_chunks}

abbrev pub header_of : Storage → Header
header_of s = record {
  magic = magic_number;
  version = s.version;
  total_documents = length s.documents_ids % 2 ^ 32;
  field_count = length s.fields;
  total_posting_lists = posting_lists_len s.posting_lists;
  total_posting_lists_data_size = posting_lists_data_size s.posting_lists;
  total_token_frequencies = length s.token_frequencies;
}

abbrev pub field_header_of : ℕ → Field → FieldHeader
field_header_of h f = record {
  hash = h;
  avg_document_length = f.avg_document_length;
  total_documents_length = f.total_documents_length;
  token_count = length f.tokens;
  total_token_frequencies = f.total_token_frequencies_count;
  document_length_count = length f.document_lengths;
}

abbrev pub IsHeader : Header → Type 0
IsHeader h =
    (h.magic < 2 ^ 64)
    × (h.version < 2 ^ 16)
    × (h.total_documents < 2 ^ 32)
    × (h.field_count < 2 ^ 64)
    × (h.total_posting_lists < 2 ^ 64)
    × (h.total_posting_lists_data_size < 2 ^ 64)
    × (h.total_token_frequencies < 2 ^ 64)

abbrev pub IsFieldHeader : FieldHeader → Type 0
IsFieldHeader h =
    (h.hash < 2 ^ 64)
    × (h.avg_document_length < 2 ^ 32)
    × (h.total_documents_length < 2 ^ 64)
    × (h.token_count < 2 ^ 64)
    × (h.total_token_frequencies < 2 ^ 64)
    × (h.document_length_count < 2 ^ 64)

module _ (e : Endian) (e_ok : IsEndian e) where
  abbrev filled_header : Header → Bytes → Bytes → Bytes → Bytes → Bytes → Bytes → Bytes → List Bytes
  filled_header h b₁ b₂ b₃ b₄ b₅ b₆ b₇ =
      fill e 8 h.magic b₁
      ∷ fill e 2 h.version b₂
      ∷ fill e 4 h.total_documents b₃
      ∷ fill e 8 h.field_count b₄
      ∷ fill e 8 h.total_posting_lists b₅
      ∷ fill e 8 h.total_posting_lists_data_size b₆
      ∷ fill e 8 h.total_token_frequencies b₇
      ∷ []

  abbrev filled_field_header : FieldHeader → Bytes → Bytes → Bytes → List Bytes
  filled_field_header h b₁ b₂ b₃ =
      e.put 8 h.hash
      ∷ fill e 4 h.avg_document_length b₁
      ∷ e.put 8 h.total_documents_length
      ∷ fill e 8 h.token_count b₂
      ∷ e.put 8 h.total_token_frequencies
      ∷ fill e 8 h.document_length_count b₃
      ∷ []

  length-fill :
      (w v : ℕ) (buffer : Bytes) → w ≤ 8 → length buffer ≡ 8 → length (fill e w v buffer) ≡ 8
  unfolding fill
  length-fill w v buffer small h =
      omega (arith, length-append (e.put w v) (drop w buffer), e_ok.0 w v, length-drop w buffer)

  read_filled :
      (pre : List Bytes) (w v : ℕ) (buffer b : Bytes)
      → IsChunks pre
      → v < 256 ^ w
      → read_at e (8 * length pre + 0) w (chunks pre (fill e w v buffer ++ b)) ≡ v
  unfolding fill
  read_filled pre w v buffer b h small = read_chunk e e_ok pre w v (drop w buffer) b h small

  pub header_chunks-IsChunks : (s : Storage) → IsChunks (header_chunks e s)
  unfolding header_chunks
  header_chunks-IsChunks s =
      let magic = length-fill 8 magic_number (replicate 8 0) (omega arith) refl in
      let version = length-fill 2 s.version _ (omega arith) magic in
      let documents = length-fill 4 (length s.documents_ids % 2 ^ 32) _ (omega arith) version in
      let fields = length-fill 8 (length s.fields) _ (omega arith) documents in
      let lists = length-fill 8 (posting_lists_len s.posting_lists) _ (omega arith) fields in
      let size = length-fill 8 (posting_lists_data_size s.posting_lists) _ (omega arith) lists in
      let frequencies = length-fill 8 (length s.token_frequencies) _ (omega arith) size in
      (magic, (version, (documents, (fields, (lists, (size, (frequencies, tt)))))))

  pub field_chunks-IsChunks :
      (buffer : Bytes) (h : ℕ) (f : Field)
      → length buffer ≡ 8
      → IsChunks (field_chunks e buffer h f)
  unfolding field_chunks
  field_chunks-IsChunks buffer h f ok =
      let average = length-fill 4 f.avg_document_length buffer (omega arith) ok in
      let tokens = length-fill 8 (length f.tokens) _ (omega arith) average in
      let lengths = length-fill 8 (length f.document_lengths) _ (omega arith) tokens in
      (e_ok.0 8 _, (average, (e_ok.0 8 _, (tokens, (e_ok.0 8 _, (lengths, tt))))))

  -- The header with any seven buffers below its integers.
  decode_filled_header :
      (h : Header) (b₁ b₂ b₃ b₄ b₅ b₆ b₇ tail : Bytes)
      → IsHeader h
      → IsChunks (filled_header h b₁ b₂ b₃ b₄ b₅ b₆ b₇)
      → decode_header e (chunks (filled_header h b₁ b₂ b₃ b₄ b₅ b₆ b₇) tail) ≡ h
  unfolding decode_header
  decode_filled_header h b₁ b₂ b₃ b₄ b₅ b₆ b₇ tail fit (k₁, (k₂, (k₃, (k₄, (k₅, (k₆, (k₇, _))))))) =
      let c₁ = fill e 8 h.magic b₁ in
      let c₂ = fill e 2 h.version b₂ in
      let c₃ = fill e 4 h.total_documents b₃ in
      let c₄ = fill e 8 h.field_count b₄ in
      let c₅ = fill e 8 h.total_posting_lists b₅ in
      let c₆ = fill e 8 h.total_posting_lists_data_size b₆ in
      let c₇ = fill e 8 h.total_token_frequencies b₇ in
      rw
        (
          read_filled [] 8 h.magic b₁ (chunks (c₂ ∷ c₃ ∷ c₄ ∷ c₅ ∷ c₆ ∷ c₇ ∷ []) tail) tt fit.0,
          read_filled (c₁ ∷ []) 2 h.version b₂ (chunks (c₃ ∷ c₄ ∷ c₅ ∷ c₆ ∷ c₇ ∷ []) tail) (k₁, tt)
              fit.1,
          read_filled (c₁ ∷ c₂ ∷ []) 4 h.total_documents b₃ (chunks (c₄ ∷ c₅ ∷ c₆ ∷ c₇ ∷ []) tail)
              (k₁, (k₂, tt)) fit.2,
          read_filled (c₁ ∷ c₂ ∷ c₃ ∷ []) 8 h.field_count b₄ (chunks (c₅ ∷ c₆ ∷ c₇ ∷ []) tail)
              (k₁, (k₂, (k₃, tt))) fit.3,
          read_filled (c₁ ∷ c₂ ∷ c₃ ∷ c₄ ∷ []) 8 h.total_posting_lists b₅
              (chunks (c₆ ∷ c₇ ∷ []) tail) (k₁, (k₂, (k₃, (k₄, tt)))) fit.4,
          read_filled (c₁ ∷ c₂ ∷ c₃ ∷ c₄ ∷ c₅ ∷ []) 8 h.total_posting_lists_data_size b₆
              (chunks (c₇ ∷ []) tail) (k₁, (k₂, (k₃, (k₄, (k₅, tt))))) fit.5,
          read_filled (c₁ ∷ c₂ ∷ c₃ ∷ c₄ ∷ c₅ ∷ c₆ ∷ []) 8 h.total_token_frequencies b₇ tail
              (k₁, (k₂, (k₃, (k₄, (k₅, (k₆, tt)))))) fit.6,
        )
        refl

  decode_filled_field_header :
      (h : FieldHeader) (b₁ b₂ b₃ tail : Bytes)
      → IsFieldHeader h
      → IsChunks (filled_field_header h b₁ b₂ b₃)
      → decode_field_header e (chunks (filled_field_header h b₁ b₂ b₃) tail) ≡ h
  unfolding decode_field_header
  decode_filled_field_header h b₁ b₂ b₃ tail fit (k₁, (k₂, (k₃, (k₄, (k₅, _))))) =
      let c₁ = e.put 8 h.hash in
      let c₂ = fill e 4 h.avg_document_length b₁ in
      let c₃ = e.put 8 h.total_documents_length in
      let c₄ = fill e 8 h.token_count b₂ in
      let c₅ = e.put 8 h.total_token_frequencies in
      let c₆ = fill e 8 h.document_length_count b₃ in
      rw
        (
          read_whole_chunk e e_ok [] h.hash (chunks (c₂ ∷ c₃ ∷ c₄ ∷ c₅ ∷ c₆ ∷ []) tail) tt fit.0,
          read_filled (c₁ ∷ []) 4 h.avg_document_length b₁ (chunks (c₃ ∷ c₄ ∷ c₅ ∷ c₆ ∷ []) tail)
              (k₁, tt) fit.1,
          read_whole_chunk e e_ok (c₁ ∷ c₂ ∷ []) h.total_documents_length
              (chunks (c₄ ∷ c₅ ∷ c₆ ∷ []) tail) (k₁, (k₂, tt)) fit.2,
          read_filled (c₁ ∷ c₂ ∷ c₃ ∷ []) 8 h.token_count b₂ (chunks (c₅ ∷ c₆ ∷ []) tail)
              (k₁, (k₂, (k₃, tt))) fit.3,
          read_whole_chunk e e_ok (c₁ ∷ c₂ ∷ c₃ ∷ c₄ ∷ []) h.total_token_frequencies
              (chunks (c₆ ∷ []) tail) (k₁, (k₂, (k₃, (k₄, tt)))) fit.4,
          read_filled (c₁ ∷ c₂ ∷ c₃ ∷ c₄ ∷ c₅ ∷ []) 8 h.document_length_count b₃ tail
              (k₁, (k₂, (k₃, (k₄, (k₅, tt))))) fit.5,
        )
        refl

  pub decode_header-header_chunks :
      (s : Storage) (tail : Bytes)
      → IsHeader (header_of s)
      → decode_header e (chunks (header_chunks e s) tail) ≡ header_of s
  unfolding header_chunks
  decode_header-header_chunks s tail fit =
      let zeros : Bytes = replicate 8 0 in
      let magic = fill e 8 magic_number zeros in
      let version = fill e 2 s.version magic in
      let documents = fill e 4 (length s.documents_ids % 2 ^ 32) version in
      let fields = fill e 8 (length s.fields) documents in
      let lists = fill e 8 (posting_lists_len s.posting_lists) fields in
      let size = fill e 8 (posting_lists_data_size s.posting_lists) lists in
      decode_filled_header (header_of s) zeros magic version documents fields lists size tail fit
        (header_chunks-IsChunks s)

  pub decode_field_header-field_chunks :
      (buffer : Bytes) (h : ℕ) (f : Field) (tail : Bytes)
      → length buffer ≡ 8
      → IsFieldHeader (field_header_of h f)
      → decode_field_header e (chunks (field_chunks e buffer h f) tail) ≡ field_header_of h f
  unfolding field_chunks
  decode_field_header-field_chunks buffer h f tail ok fit =
      let average = fill e 4 f.avg_document_length buffer in
      let tokens = fill e 8 (length f.tokens) average in
      decode_filled_field_header (field_header_of h f) buffer average tokens tail fit
        (field_chunks-IsChunks buffer h f ok)
