-- ===== src/Examples/Files.antt =====
-- A segment of one document that is written to a file and read back.
use textiplex.Prelude.{
  ℕ, ◌≡◌, ◌<◌, refl, true, false, [], ◌∷◌, ◌++◌, take, length, replicate, inl, ltb→lt, arith,
}
use textiplex.Bytes.{Bytes}
use textiplex.Storage.Headers.{Token, RawValue}
use textiplex.Storage.Segment.{
  Storage, Field, PostingLists, get_posting_list, posting_lists_len, posting_lists_data_size,
}
use textiplex.Storage.File.Storable.{IsStorable, IsStorablePostingLists}
use textiplex.Storage.File.Endian.{read_at}
use textiplex.Storage.File.Records.{
  decode_header, encode_document_id, encode_raw_value, encode_frequency,
}
use textiplex.Storage.File.Arrays.{encode_all, read_section}
use textiplex.Storage.File.Save.{
  save_to, save, ensure_initialized, header_chunks, fill, save_fields, header_buffer,
  save_posting_lists,
}
use textiplex.Storage.File.Load.{
  load, loaded, failed, no_document_ids, zero_storage, load_body, load_documents,
}
use textiplex.Storage.File.Fetched.{get_posting_list-load}
use textiplex.Storage.File.Roundtrip.{reloaded, load-save_to}
use textiplex.Storage.File.Truncated.{load-append, load-take-save_to}
use textiplex.Storage.File.Failed.{load-failed}
use textiplex.Examples.Little.{little, little-IsEndian}

abbrev raw : RawValue
raw = record { size = 1; store = 97 ∷ replicate 127 0 }

abbrev token : Token
token = record { frequency_count = 1; posting_list_index = 0; frequencies_index = 0; value = raw }

abbrev field : Field
field = record {
  avg_document_length = 7;
  total_documents_length = 3;
  tokens = token ∷ [];
  total_token_frequencies_count = 1;
  document_lengths = record { index = 0; length = 3 } ∷ [];
}

abbrev lists : PostingLists
lists = record { reference = []; headers = []; entries = record { bytes = 1 ∷ 2 ∷ [] } ∷ [] }

abbrev segment : Storage
segment = record {
  version = 0;
  size = 0;
  fields = (77, field) ∷ [];
  documents_ids = record { value = raw } ∷ [];
  posting_lists = lists;
  token_frequencies = record { document_index = 0; frequency = 2 } ∷ [];
  initialized = true;
}

lists-IsStorable : IsStorablePostingLists lists
unfolding posting_lists_len posting_lists_data_size
lists-IsStorable = record {
  headers_fit = tt;
  few = omega arith;
  no_more_entries = inl refl;
  whole = inl refl;
  small = omega arith;
}

segment-IsStorable : IsStorable segment
segment-IsStorable = record {
  is_initialized = refl;
  version_fits = omega arith;
  documents_fit = ((omega arith, refl), tt);
  few_documents = omega arith;
  frequencies_fit = ((omega arith, omega arith), tt);
  few_frequencies = omega arith;
  fields_fit = (
    (
      omega arith,
      omega arith,
      omega arith,
      omega arith,
      ((omega arith, omega arith, omega arith, (omega arith, refl)), tt),
      omega arith,
      ((omega arith, omega arith), tt),
      omega arith,
    ),
    tt,
  );
  distinct = (tt, tt);
  few_fields = omega arith;
  posting_lists_fit = lists-IsStorable;
}

load-save_to_example :
    load little zero_storage (save_to little segment) ≡ loaded (reloaded little segment)
load-save_to_example = load-save_to little little-IsEndian segment segment-IsStorable

one_list : 0 < posting_lists_len segment.posting_lists
unfolding posting_lists_len
one_list = omega arith

get_posting_list-load_example :
    (t : Storage) × (load little zero_storage (save_to little segment) ≡ loaded t)
    × (get_posting_list t.posting_lists 0 ≡ get_posting_list segment.posting_lists 0)
get_posting_list-load_example =
    get_posting_list-load little little-IsEndian segment segment-IsStorable 0 one_list

is_initialized : (reloaded little segment).initialized ≡ true
unfolding encode_all encode_document_id encode_raw_value encode_frequency save_fields header_buffer
    save_posting_lists
is_initialized = refl

load-append_example :
    load little zero_storage (save_to little segment ++ 5 ∷ 6 ∷ [])
    ≡ loaded (reloaded little segment)
load-append_example =
    load-append little zero_storage (reloaded little segment) (save_to little segment) (5 ∷ 6 ∷ [])
      (load-save_to little little-IsEndian segment segment-IsStorable) is_initialized

abbrev cut : ℕ → Bytes
cut n = take n (save_to little segment)

cut_behind_header : load little zero_storage (cut 56) ≡ loaded zero_storage
unfolding load save_to save ensure_initialized header_chunks fill posting_lists_len
    posting_lists_data_size decode_header read_at
cut_behind_header = refl

long_enough : 56 < length (save_to little segment)
unfolding save_to save ensure_initialized header_chunks fill posting_lists_len
    posting_lists_data_size encode_all encode_document_id encode_raw_value encode_frequency
    save_fields header_buffer save_posting_lists
long_enough = ltb→lt 56 (length (save_to little segment)) refl

load-take-save_to_example : (◌≡◌ {A = ℕ} 56 56) × (zero_storage.initialized ≡ false)
load-take-save_to_example =
    load-take-save_to little little-IsEndian segment zero_storage 56 segment-IsStorable long_enough
      cut_behind_header

cut_in_documents : load little zero_storage (cut 100) ≡ failed no_document_ids zero_storage
unfolding load save_to save ensure_initialized header_chunks fill posting_lists_len
    posting_lists_data_size decode_header read_at load_body load_documents read_section encode_all
    encode_document_id encode_raw_value
cut_in_documents = refl

load-failed_example : zero_storage.initialized ≡ false
load-failed_example =
    load-failed little zero_storage zero_storage (cut 100) no_document_ids cut_in_documents
