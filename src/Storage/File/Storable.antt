-- ===== src/Storage/File/Storable.antt =====
-- What a file can hold: integers in their width, arrays of fewer than 2^64 bytes, a map with
-- distinct keys.
use textiplex.Prelude.{ℕ, ◌*◌, ◌^◌, ◌<◌, ◌≤◌, ◌≡◌, ◌≢◌, ◌⊎◌, [], All, IsChain, length, true}
use textiplex.Storage.Segment.{
  Storage, Field, PostingLists, posting_lists_len, posting_lists_data_size,
}
use textiplex.Storage.File.Records.{
  IsDocumentId, IsFrequency, IsLength, IsToken, IsPostingListHeader,
}

-- With headers, the reference is their data.
pub record IsStorablePostingLists (p : PostingLists) : Type 0 where
  pub headers_fit : All IsPostingListHeader p.headers
  pub few : 16 * posting_lists_len p < 2 ^ 64
  pub no_more_entries : (p.headers ≡ []) ⊎ (length p.entries ≤ length p.headers)
  pub whole : (p.headers ≡ []) ⊎ (posting_lists_data_size p ≡ length p.reference)
  pub small : posting_lists_data_size p < 2 ^ 64

abbrev pub IsStorableField : ℕ × Field → Type 0
IsStorableField (h, f) =
    (h < 2 ^ 64)
    × (f.avg_document_length < 2 ^ 32)
    × (f.total_documents_length < 2 ^ 64)
    × (f.total_token_frequencies_count < 2 ^ 64)
    × All IsToken f.tokens
    × (160 * length f.tokens < 2 ^ 64)
    × All IsLength f.document_lengths
    × (8 * length f.document_lengths < 2 ^ 64)

abbrev pub HasOtherKey : ℕ × Field → ℕ × Field → Type 0
HasOtherKey a b = a.0 ≢ b.0

pub record IsStorable (s : Storage) : Type 0 where
  pub is_initialized : s.initialized ≡ true
  pub version_fits : s.version < 2 ^ 16
  pub documents_fit : All IsDocumentId s.documents_ids
  pub few_documents : length s.documents_ids < 2 ^ 32
  pub frequencies_fit : All IsFrequency s.token_frequencies
  pub few_frequencies : 8 * length s.token_frequencies < 2 ^ 64
  pub fields_fit : All IsStorableField s.fields
  pub distinct : IsChain HasOtherKey s.fields
  pub few_fields : length s.fields < 2 ^ 64
  pub posting_lists_fit : IsStorablePostingLists s.posting_lists
