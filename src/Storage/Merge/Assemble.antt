-- ===== src/Storage/Merge/Assemble.antt =====
-- Phase 5 of `Merge`, which writes the posting lists and the file header, and `addOffsetFrom` of
-- storage/merge_bitmap.go.
use textiplex.Prelude.{
  ℕ, zero, suc, ◌+◌, ◌%◌, ◌^◌, Option, none, some, List, [], ◌∷◌, ◌++◌, true, false, length, map,
  take, drop, ltb, leb, if◌then◌else◌, ◌>>=◌,
}
use textiplex.Bytes.{Bytes}
use textiplex.Roaring.{Roaring}
use textiplex.Storage.Headers.{
  Float32, Header, PostingListHeader, DocumentId, TokenFrequencies, magic_number, version_v1,
  max_posting_list_headers_batch,
}
use textiplex.Storage.Segment.{Storage, get_posting_list, unsafe_bitmap}
use textiplex.Storage.Merge.Context.{
  MergeContext, PendingPostingList, FieldSection, count_fields, offset_index, for_each,
}
use textiplex.Storage.Merge.Prepare.{preparation_pass}
use textiplex.Storage.Merge.Emit.{emit_fields}

abbrev pub offset_bitmap_cached_size : ℕ
offset_bitmap_cached_size = 16

-- What has been written behind the fields. `written` are the headers in the file, `batch` those
-- still in memory.
pub record PostingWriter : Type 0 where
  pub written : List PostingListHeader
  pub batch : List PostingListHeader
  pub offset : ℕ
  pub bytes : Bytes

-- The file that the merge leaves, section by section.
pub record SegmentFile : Type 0 where
  pub header : Header
  pub document_ids : List DocumentId
  pub token_frequencies : TokenFrequencies
  pub sections : List FieldSection
  pub posting_list_headers : List PostingListHeader
  pub posting_lists_bytes : Bytes

-- One posting list: a header, and a write of the full batch to the file, then the list's bytes.
unfoldable pub write_posting_list : ℕ → PostingWriter → Bytes → PostingWriter
write_posting_list max_headers w bytes =
    let batch = w.batch ++ record { offset = w.offset; length = length bytes } ∷ [] in
    let w' : PostingWriter = record w {
      batch = batch;
      offset = w.offset + length bytes;
      bytes = w.bytes ++ bytes;
    } in
    if leb max_headers (length batch)
    then record w' { written = w.written ++ batch; batch = [] }
    else w'

-- The headers that remain are written at the end.
unfoldable pub flush_headers : PostingWriter → List PostingListHeader
flush_headers w = w.written ++ w.batch

module _ (r : Roaring) (document_offset : ℕ) where
  -- `remaining` is what the iterator has still to return, `fuel` bounds the rounds.
  unfoldable pub add_offset_loop : ℕ → r.Bitmap → List ℕ → r.Bitmap
  unfolding offset_index
  add_offset_loop zero dst remaining = dst
  add_offset_loop (suc fuel) dst remaining =
      let chunk = take offset_bitmap_cached_size remaining in
      let dst' = r.add_many dst (map (offset_index document_offset) chunk) in
      elim (ltb (length chunk) 8) [
        | true ↦ dst'
        | false ↦ add_offset_loop fuel dst' (drop offset_bitmap_cached_size remaining)
      ]

  unfoldable pub add_offset_from : r.Bitmap → r.Bitmap → r.Bitmap
  unfolding add_offset_loop
  add_offset_from dst src = add_offset_loop (suc (length (r.to_array src))) dst (r.to_array src)

  module _ (storage_a storage_b : Storage) where
    -- The bytes of a posting list of the result: of both lists, of A's as it is, or of B's moved.
    -- `some none` stands for the pair of indexes that no case of the switch takes.
    unfoldable pub merged_posting_list : PendingPostingList → Option (Option Bytes)
    unfolding add_offset_from
    merged_posting_list pending = elim pending.index_a [
      | some index_a ↦ elim pending.index_b [
        | some index_b ↦
            (get_posting_list storage_a.posting_lists index_a >>= λ raw_a.
            get_posting_list storage_b.posting_lists index_b >>= λ raw_b. some (
              some (
                r.serialize (
                  add_offset_from (r.or r.empty (unsafe_bitmap r raw_a)) (unsafe_bitmap r raw_b)))))
        | none ↦
            (get_posting_list storage_a.posting_lists index_a >>= λ raw_a.
            some (some (raw_a.bytes)))
      ]
      | none ↦ elim pending.index_b [
        | some index_b ↦
            (get_posting_list storage_b.posting_lists index_b >>= λ raw_b.
            some (some (r.serialize (add_offset_from r.empty (unsafe_bitmap r raw_b)))))
        | none ↦ some none
      ]
    ]

    unfoldable pub write_pending : ℕ → PostingWriter → PendingPostingList → Option PostingWriter
    unfolding write_posting_list merged_posting_list
    write_pending max_headers w pending = merged_posting_list pending >>= λ found.
        some (elim found [ none ↦ w | some bytes ↦ write_posting_list max_headers w bytes ])

    unfoldable pub write_posting_lists : List PendingPostingList → Option PostingWriter
    unfolding write_pending for_each max_posting_list_headers_batch
    write_posting_lists pending =
        for_each (write_pending (max_posting_list_headers_batch (length pending)))
          (record { written = []; batch = []; offset = 0; bytes = [] }) pending

abbrev pub initial_context : MergeContext
initial_context = record {
  posting_list_cursor = 0;
  frequencies_cursor = 0;
  posting_list_count = 0;
  pending_posting_lists = [];
  fields_order = record { a = []; b = []; collision = [] };
  frequencies = [];
  sections = [];
}

-- `DocumentOffset: uint32(len(a.DocumentsIds))`
abbrev pub offset_of_b : Storage → ℕ
offset_of_b storage_a = length storage_a.documents_ids % 2 ^ 32

module _ (r : Roaring) (average : ℕ → ℕ → Float32) (storage_a storage_b : Storage) where
  abbrev finish : MergeContext → PostingWriter → SegmentFile
  finish ctx w = record {
    header = record {
      magic = magic_number;
      version = version_v1;
      total_documents =
          (length storage_a.documents_ids % 2 ^ 32 + length storage_b.documents_ids % 2 ^ 32)
          % 2 ^ 32;
      field_count = count_fields ctx.fields_order;
      total_posting_lists = ctx.posting_list_cursor;
      total_posting_lists_data_size = length w.bytes;
      total_token_frequencies = ctx.frequencies_cursor;
    };
    document_ids = storage_a.documents_ids ++ storage_b.documents_ids;
    token_frequencies = ctx.frequencies;
    sections = ctx.sections;
    posting_list_headers = flush_headers w;
    posting_lists_bytes = w.bytes;
  }

  unfoldable pub merge : Option SegmentFile
  unfolding preparation_pass emit_fields write_posting_lists flush_headers
  merge =
      preparation_pass storage_a storage_b (offset_of_b storage_a) initial_context >>= λ prepared.
      emit_fields storage_a storage_b (offset_of_b storage_a) average prepared >>= λ ctx.
      write_posting_lists r (offset_of_b storage_a) storage_a storage_b ctx.pending_posting_lists
      >>= λ w. some (finish ctx w)
