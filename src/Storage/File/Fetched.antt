-- ===== src/Storage/File/Fetched.antt =====
-- `PostingLists.Get` on a segment that was saved and loaded.
use textiplex.Prelude.{ℕ, ◌<◌, ◌≡◌, refl, ◌++◌, false, length, length-append, ◌==◌, arith}
use textiplex.Storage.Segment.{Storage, posting_lists_len, get_posting_list}
use textiplex.Storage.File.Endian.{Endian, IsEndian}
use textiplex.Storage.File.Records.{
  IsPostingListHeader, encode_document_id, encode_frequency, encode_posting_list_header,
  decode_posting_list_header,
}
use textiplex.Storage.File.Reread.{
  decode-encode_posting_list_header, length-encode_posting_list_header,
}
use textiplex.Storage.File.Arrays.{encode_all, length-encode_all}
use textiplex.Storage.File.Save.{save_to, save_fields, save_posting_lists, header_buffer}
use textiplex.Storage.File.Load.{loaded, load, zero_storage}
use textiplex.Storage.File.Storable.{IsStorable}
use textiplex.Storage.File.Lists.{
  saved_headers, saved_reference, save_posting_lists_eq, posting_lists_len-saved_headers,
  saved_headers-fit, get_posting_list-reloaded,
}
use textiplex.Storage.File.Roundtrip.{body, reloaded, load-save_to}

module _ (e : Endian) (e_ok : IsEndian e) (s : Storage) (ok : IsStorable s) where
  -- Each posting list has a header in the file.
  length-save_posting_lists :
      (n : ℕ)
      → n ≡ posting_lists_len s.posting_lists
      → 0 < n
      → 0 < length (save_posting_lists e s.posting_lists)
  length-save_posting_lists n same some_list =
      rw (save_posting_lists_eq s.posting_lists ok.posting_lists_fit e) (
        omega (
          arith,
          same,
          some_list,
          posting_lists_len-saved_headers s.posting_lists ok.posting_lists_fit,
          length-append (encode_all (encode_posting_list_header e) (saved_headers s.posting_lists))
              (saved_reference s.posting_lists),
          length-encode_all (encode_posting_list_header e) (decode_posting_list_header e) 16
              IsPostingListHeader (decode-encode_posting_list_header e e_ok)
              (λ h _. length-encode_posting_list_header e e_ok h) (saved_headers s.posting_lists)
              (saved_headers-fit s.posting_lists ok.posting_lists_fit),
        ))

  body-nonempty :
      0 < length (save_posting_lists e s.posting_lists) → (length (body e s) == 0) ≡ false
  body-nonempty h =
      let lists = save_posting_lists e s.posting_lists in
      let fields = save_fields e (header_buffer e s) s.fields in
      let frequencies = encode_all (encode_frequency e) s.token_frequencies in
      ground (
        arith,
        h,
        length-append (encode_all (encode_document_id e) s.documents_ids)
            (frequencies ++ (fields ++ lists)),
        length-append frequencies (fields ++ lists),
        length-append fields lists,
      )

  -- For a storage that is initialized and fits the file, with the conditions under which
  -- `Load` gives it back, and the index of one of its posting lists: `Load` of the file that
  -- `SaveTo` writes, into a fresh storage, returns without an error a storage in which `Get`
  -- of that index is what it is in the saved one.
  pub get_posting_list-load :
      (i : ℕ)
      → i < posting_lists_len s.posting_lists
      → (t : Storage) × (load e zero_storage (save_to e s) ≡ loaded t)
        × (get_posting_list t.posting_lists i ≡ get_posting_list s.posting_lists i)
  get_posting_list-load i small =
      let some_list =
        length-save_posting_lists (posting_lists_len s.posting_lists) refl (omega (arith, small)) in
      (
        reloaded e s,
        load-save_to e e_ok s ok,
        rw (body-nonempty some_list) (get_posting_list-reloaded s.posting_lists i small),
      )
