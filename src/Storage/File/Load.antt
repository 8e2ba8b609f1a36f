-- ===== src/Storage/File/Load.antt =====
-- `Storage.Load` and `Storage.Reset` of storage/storage.go. The system calls succeed; the bytes are
-- the mapping of the file.
use textiplex.Prelude.{
  ℕ, zero, suc, ◌-◌, ◌*◌, ◌%◌, ◌^◌, true, false, List, [], ◌∷◌, length, take, drop, ltb, ◌==◌,
  if◌then◌else◌, ◌≡◌, refl,
}
use textiplex.Bytes.{Bytes}
use textiplex.Storage.Headers.{Header, FieldHeader, PostingListHeader}
use textiplex.Storage.Segment.{Storage, Field, Fields, posting_lists_data_size}
use textiplex.Storage.File.Endian.{Endian}
use textiplex.Storage.File.Records.{
  decode_header, decode_field_header, decode_document_id, decode_frequency, decode_length,
  decode_token, decode_posting_list_header, header_size, field_header_size, document_id_size,
  token_frequency_entry_size, document_length_entry_size, token_size, posting_list_header_size,
}
use textiplex.Storage.File.Arrays.{Section, short, crashed, section, read_section}

-- One constructor for each error that `Load` returns after the file has been mapped.
pub data LoadError : Type 0 where
  no_header no_document_ids no_token_frequencies no_field no_document_lengths no_tokens : LoadError
  no_posting_list_headers no_posting_lists_data posting_lists_size : LoadError

-- An error leaves the storage as far as it was filled; a panic leaves nothing to use.
pub data Outcome (A : Type 0) : Type 0 where
  loaded : A → Outcome A
  failed : LoadError → Storage → Outcome A
  panicked : Outcome A

infixl 5 ◌>>=◌
abbrev pub ◌>>=◌ : {A B : Type 0} → Outcome A → (A → Outcome B) → Outcome B
loaded a >>= f = f a
failed err s >>= f = failed err s
panicked >>= f = panicked

-- A storage that is being filled, and the bytes that follow.
pub record Loading : Type 0 where
  pub storage : Storage
  pub rest : Bytes

-- A step that reads an array, with the error it returns and what it does with the array.
abbrev pub fill_section :
    {A : Type 0} → LoadError → Storage → Section A → (List A → Storage) → Outcome Loading
fill_section err s short f = failed err s
fill_section err s crashed f = panicked
fill_section err s (section xs rest) f = loaded (record { storage = f xs; rest = rest })

-- A step that goes on behind an array.
abbrev pub after_section :
    {A : Type 0}
    → LoadError
    → Storage
    → Section A
    → (List A → Bytes → Outcome Loading)
    → Outcome Loading
after_section err s short f = failed err s
after_section err s crashed f = panicked
after_section err s (section xs rest) f = f xs rest

-- `s.Fields[hash] = field`
unfoldable pub put_field : ℕ → Field → Fields → Fields
put_field h f [] = (h, f) ∷ []
put_field h f ((k, g) ∷ fs) = if k == h then (k, f) ∷ fs else (k, g) ∷ put_field h f fs

-- The zero value of the type, which `Reset` assigns.
abbrev pub zero_storage : Storage
zero_storage = record {
  version = 0;
  size = 0;
  fields = [];
  documents_ids = [];
  posting_lists = record { reference = []; headers = []; entries = [] };
  token_frequencies = [];
  initialized = false;
}

-- The map holds a pointer to the field, so that it has each part as soon as that is read.
abbrev pub with_field : Storage → ℕ → Field → Storage
with_field s h f = record s { fields = put_field h f s.fields }

unfoldable pub new_field : FieldHeader → Field
new_field h = record {
  avg_document_length = h.avg_document_length;
  total_documents_length = h.total_documents_length;
  tokens = [];
  total_token_frequencies_count = h.total_token_frequencies;
  document_lengths = [];
}

abbrev pub with_headers : Storage → List PostingListHeader → Storage
with_headers s hs = record s { posting_lists = record s.posting_lists { headers = hs } }

module _ (e : Endian) where
  -- The arrays of a field, which lies in the map from the start.
  unfoldable pub load_field_arrays : FieldHeader → Loading → Outcome Loading
  load_field_arrays h st =
      after_section no_document_lengths (with_field st.storage h.hash (new_field h))
        (read_section (decode_length e) document_length_entry_size h.document_length_count []
          st.rest)
        (λ lengths rest.
          fill_section no_tokens
            (with_field st.storage h.hash (record (new_field h) { document_lengths = lengths }))
            (read_section (decode_token e) token_size h.token_count [] rest)
            (λ tokens.
              with_field st.storage h.hash
                (record (new_field h) { document_lengths = lengths; tokens = tokens })))

  -- One round of the loop over the fields.
  unfoldable pub load_field : Loading → Outcome Loading
  load_field st =
      if ltb (length st.rest) field_header_size
      then failed no_field st.storage
      else load_field_arrays (decode_field_header e st.rest)
          (record st { rest = drop field_header_size st.rest })

  unfoldable pub load_fields : ℕ → Loading → Outcome Loading
  load_fields zero st = loaded st
  load_fields (suc n) st = load_field st >>= load_fields n

  -- The data of the posting lists, behind their headers.
  unfoldable pub load_data : ℕ → Storage → Bytes → Outcome Loading
  load_data size s rest =
      if ltb (length rest) size
      then failed no_posting_lists_data s
      else (if posting_lists_data_size s.posting_lists % 2 ^ 64 == size
          then loaded (record {
            storage = record s {
              posting_lists = record s.posting_lists { reference = take size rest };
            };
            rest = drop size rest;
          })
          else failed posting_lists_size s)

  unfoldable pub load_posting_lists : Header → Loading → Outcome Loading
  load_posting_lists h st =
      after_section no_posting_list_headers st.storage
        (read_section (decode_posting_list_header e) posting_list_header_size h.total_posting_lists
          [] st.rest)
        (λ headers rest.
          if posting_list_header_size * h.total_posting_lists % 2 ^ 64 == 0
          then loaded st
          else load_data h.total_posting_lists_data_size (with_headers st.storage headers) rest)

  unfoldable pub load_documents : Header → Loading → Outcome Loading
  load_documents h st =
      fill_section no_document_ids st.storage
        (read_section (decode_document_id e) document_id_size h.total_documents
          st.storage.documents_ids st.rest)
        (λ ids. record st.storage { documents_ids = ids })

  unfoldable pub load_frequencies : Header → Loading → Outcome Loading
  load_frequencies h st =
      fill_section no_token_frequencies st.storage
        (read_section (decode_frequency e) token_frequency_entry_size h.total_token_frequencies
          st.storage.token_frequencies st.rest)
        (λ fs. record st.storage { token_frequencies = fs })

  -- `make(map[uint64]*Field)` comes before the loop over the fields.
  abbrev pub load_all_fields : Header → Loading → Outcome Loading
  load_all_fields h st =
      load_fields h.field_count (record st { storage = record st.storage { fields = [] } })

  unfoldable pub load_body : Header → Loading → Outcome Loading
  load_body h st =
      load_documents h st >>= load_frequencies h >>= load_all_fields h >>= load_posting_lists h

  -- `Storage.Load`. A file that ends behind its header is no error, and is not initialized.
  unfoldable pub load : Storage → Bytes → Outcome Storage
  load s0 file =
      let s : Storage = record s0 { initialized = false } in
      if ltb (length file) header_size
      then failed no_header s
      else (let h = decode_header e file in
          let s1 : Storage = record s { version = h.version } in
          if length (drop header_size file) == 0
          then loaded s1
          else (load_body h (record { storage = s1; rest = drop header_size file }) >>= λ l.
              loaded (record l.storage { size = length file - length l.rest; initialized = true })))

-- Inversion of a step that has not failed.
pub >>=-eq-loaded :
    {A B : Type 0} (m : Outcome A) (f : A → Outcome B) {b : B}
    → (m >>= f) ≡ loaded b
    → (a : A) × (m ≡ loaded a) × (f a ≡ loaded b)
>>=-eq-loaded (loaded a) f h = (a, refl, h)
>>=-eq-loaded (failed err s) f h = cc
>>=-eq-loaded panicked f h = cc
