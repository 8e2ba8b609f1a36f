-- ===== src/Storage/File/Roundtrip.antt =====
-- `Load` of a file that `SaveTo` has written.
use textiplex.Prelude.{
  ℕ, zero, suc, ◌+◌, ◌-◌, ◌*◌, ◌%◌, ◌^◌, ◌<◌, ◌≡◌, refl, ap, ◌∙◌, true, false, [], ◌++◌, length,
  drop, Bool-cases, ◌≢◌, ◌⊎◌, inl, inr, ltb, ◌==◌, arith, take_all, drop_all, if◌then◌else◌,
}
use textiplex.Bytes.{Bytes}
use textiplex.Storage.Segment.{Storage, PostingLists, posting_lists_len, posting_lists_data_size}
use textiplex.Storage.File.Endian.{Endian, IsEndian}
use textiplex.Storage.File.Records.{
  chunks, IsDocumentId, IsFrequency, IsPostingListHeader, encode_document_id, decode_document_id,
  encode_frequency, decode_frequency, encode_posting_list_header, decode_posting_list_header,
}
use textiplex.Storage.File.Reread.{
  length-chunks, drop-chunks, decode-encode_document_id, length-encode_document_id,
  decode-encode_frequency, length-encode_frequency, decode-encode_posting_list_header,
  length-encode_posting_list_header,
}
use textiplex.Storage.File.Arrays.{encode_all, read_section, section, read_section-encode_all}
use textiplex.Storage.File.Save.{
  header_chunks, header_buffer, save_fields, save_posting_lists, save, save_to, ensure_initialized,
}
use textiplex.Storage.File.Load.{
  loaded, load, load_body, load_documents, load_frequencies, load_posting_lists, load_data,
  zero_storage, with_headers,
}
use textiplex.Storage.File.Storable.{IsStorable}
use textiplex.Storage.File.Lists.{
  saved_headers, saved_reference, reloaded_lists, save_posting_lists_eq,
  posting_lists_len-saved_headers, posting_lists_data_size-saved_reference,
  posting_lists_data_size-headers, nothing_saved, saved_headers-fit,
}
use textiplex.Storage.File.Headers.{
  header_of, IsHeader, header_chunks-IsChunks, decode_header-header_chunks,
}
use textiplex.Storage.File.Reload.{load_fields-save_fields}

-- What follows the header of a file.
abbrev pub body : Endian → Storage → Bytes
body e s =
    encode_all (encode_document_id e) s.documents_ids
    ++ (encode_all (encode_frequency e) s.token_frequencies
        ++ (save_fields e (header_buffer e s) s.fields ++ save_posting_lists e s.posting_lists))

ltb_self : (n : ℕ) → ltb n n ≡ false
ltb_self n = ground arith

wrap_small : (n : ℕ) → n < 2 ^ 64 → (n % 2 ^ 64 == n) ≡ true
wrap_small n h = ground arith

no_size : (n : ℕ) → 16 * n < 2 ^ 64 → n ≢ 0 → (16 * n % 2 ^ 64 == 0) ≡ false
no_size n h present = ground arith

zero-or-not : (n : ℕ) → (n ≡ 0) ⊎ (n ≢ 0)
zero-or-not zero = inl refl
zero-or-not (suc n) = inr (λ h. absurd (omega arith))

length-header_buffer : (e : Endian) → IsEndian e → (s : Storage) → length (header_buffer e s) ≡ 8
unfolding header_buffer
length-header_buffer e e_ok s = e_ok.0 8 (length s.token_frequencies)

-- What `Load` makes of the file of a storage. The file of an empty storage is its header alone,
-- which `Load` does not count as a size and does not call initialized.
abbrev pub reloaded : Endian → Storage → Storage
reloaded e s =
    if length (body e s) == 0 then record zero_storage { version = s.version } else record s {
      size = length (save_to e s);
      posting_lists = reloaded_lists s.posting_lists;
      initialized = true;
    }

module _ (e : Endian) (e_ok : IsEndian e) (s : Storage) (ok : IsStorable s) where
  reread_documents :
      (b : Bytes)
      → read_section
          (decode_document_id e)
          136
          (length s.documents_ids)
          []
          (encode_all (encode_document_id e) s.documents_ids ++ b)
        ≡ section s.documents_ids b
  reread_documents b =
      read_section-encode_all (encode_document_id e) (decode_document_id e) 136 IsDocumentId
        (decode-encode_document_id e e_ok) (length-encode_document_id e e_ok) s.documents_ids b
        (omega arith) ok.documents_fit (omega (arith, ok.few_documents))

  reread_frequencies :
      (b : Bytes)
      → read_section
          (decode_frequency e)
          8
          (length s.token_frequencies)
          []
          (encode_all (encode_frequency e) s.token_frequencies ++ b)
        ≡ section s.token_frequencies b
  reread_frequencies b =
      read_section-encode_all (encode_frequency e) (decode_frequency e) 8 IsFrequency
        (decode-encode_frequency e e_ok) (λ f _. length-encode_frequency e e_ok f)
        s.token_frequencies b (omega arith) ok.frequencies_fit ok.few_frequencies

  reread_headers :
      (b : Bytes)
      → read_section
          (decode_posting_list_header e)
          16
          (posting_lists_len s.posting_lists)
          []
          (encode_all (encode_posting_list_header e) (saved_headers s.posting_lists) ++ b)
        ≡ section (saved_headers s.posting_lists) b
  reread_headers b = rw (len_eq) (
      read_section-encode_all (encode_posting_list_header e) (decode_posting_list_header e) 16
        IsPostingListHeader (decode-encode_posting_list_header e e_ok)
        (λ h _. length-encode_posting_list_header e e_ok h) (saved_headers s.posting_lists) b
        (omega arith) (saved_headers-fit s.posting_lists ok.posting_lists_fit)
        (omega (arith, len_eq, ok.posting_lists_fit.few)))
    where
      len_eq : posting_lists_len s.posting_lists ≡ length (saved_headers s.posting_lists)
      len_eq = posting_lists_len-saved_headers s.posting_lists ok.posting_lists_fit

  header_of-IsHeader : IsHeader (header_of s)
  header_of-IsHeader = (
    omega arith,
    ok.version_fits,
    omega arith,
    ok.few_fields,
    omega (arith, ok.posting_lists_fit.few),
    ok.posting_lists_fit.small,
    omega (arith, ok.few_frequencies),
  )

  abbrev with_lists : Storage → Storage
  with_lists st = record st { posting_lists = reloaded_lists s.posting_lists }

  lists : Bytes → PostingLists
  lists reference = record {
    reference = reference;
    headers = saved_headers s.posting_lists;
    entries = [];
  }

  load_data_lem :
      (st : Storage)
      → st.posting_lists ≡ lists []
      → load_data e (posting_lists_data_size s.posting_lists) st (saved_reference s.posting_lists)
        ≡ loaded (record { storage = with_lists st; rest = [] })
  unfolding load_data lists
  load_data_lem st fresh =
      rw (fresh, posting_lists_data_size-headers s.posting_lists ok.posting_lists_fit, size)
        (rw
          (
            take_all (saved_reference s.posting_lists),
            drop_all (saved_reference s.posting_lists),
            ltb_self (length (saved_reference s.posting_lists)),
            wrap_small (length (saved_reference s.posting_lists))
                (omega (arith, size, ok.posting_lists_fit.small)),
          )
          refl)
    where
      size : posting_lists_data_size s.posting_lists ≡ length (saved_reference s.posting_lists)
      size = posting_lists_data_size-saved_reference s.posting_lists ok.posting_lists_fit

  -- With no posting list there is nothing in the file, and nothing is read.
  saved_nothing : posting_lists_len s.posting_lists ≡ 0 → save_posting_lists e s.posting_lists ≡ []
  unfolding encode_all
  saved_nothing absent =
      save_posting_lists_eq s.posting_lists ok.posting_lists_fit e
      ∙ ap {A = PostingLists}
          (λ l. encode_all (encode_posting_list_header e) l.headers ++ l.reference)
          (nothing_saved s.posting_lists ok.posting_lists_fit absent)

  load_posting_lists-none :
      (st : Storage)
      → st.posting_lists ≡ zero_storage.posting_lists
      → posting_lists_len s.posting_lists ≡ 0
      → load_posting_lists e
          (header_of s)
          (record { storage = st; rest = save_posting_lists e s.posting_lists })
        ≡ loaded (record { storage = with_lists st; rest = [] })
  unfolding load_posting_lists encode_all
  load_posting_lists-none st fresh absent =
      rw
        (
          save_posting_lists_eq s.posting_lists ok.posting_lists_fit e,
          reread_headers (saved_reference s.posting_lists),
          load_posting_lists,
          absent,
          nothing_saved s.posting_lists ok.posting_lists_fit absent,
        )
        (rw
          (
            ← save_posting_lists_eq s.posting_lists ok.posting_lists_fit e,
            saved_nothing absent,
            ← fresh,
          )
          refl)

  load_posting_lists-some :
      (st : Storage)
      → st.posting_lists ≡ zero_storage.posting_lists
      → posting_lists_len s.posting_lists ≢ 0
      → load_posting_lists e
          (header_of s)
          (record { storage = st; rest = save_posting_lists e s.posting_lists })
        ≡ loaded (record { storage = with_lists st; rest = [] })
  unfolding load_posting_lists lists
  load_posting_lists-some st fresh present =
      rw
        (
          save_posting_lists_eq s.posting_lists ok.posting_lists_fit e,
          reread_headers (saved_reference s.posting_lists),
          load_posting_lists,
          no_size _ ok.posting_lists_fit.few present,
        )
        (load_data_lem (with_headers st (saved_headers s.posting_lists))
          (ap {A = PostingLists} (λ l. record l { headers = saved_headers s.posting_lists }) fresh))

  load_posting_lists_lem :
      (st : Storage)
      → st.posting_lists ≡ zero_storage.posting_lists
      → load_posting_lists e
          (header_of s)
          (record { storage = st; rest = save_posting_lists e s.posting_lists })
        ≡ loaded (record { storage = with_lists st; rest = [] })
  load_posting_lists_lem st fresh = elim (zero-or-not (posting_lists_len s.posting_lists)) [
    | inl absent ↦ load_posting_lists-none st fresh absent
    | inr present ↦ load_posting_lists-some st fresh present
  ]

  -- The storage before the fields are read.
  abbrev before_fields : Storage
  before_fields = record zero_storage {
    version = s.version;
    documents_ids = s.documents_ids;
    token_frequencies = s.token_frequencies;
  }

  load_body_lem :
      load_body e
        (header_of s)
        (record { storage = record zero_storage { version = s.version }; rest = body e s })
      ≡ loaded
          (record { storage = with_lists (record before_fields { fields = s.fields }); rest = [] })
  unfolding load_body load_documents load_frequencies
  load_body_lem =
      rw
        (
          few,
          reread_documents _,
          reread_frequencies _,
          load_fields-save_fields e e_ok s.fields [] (header_buffer e s) before_fields
              (save_posting_lists e s.posting_lists) (length-header_buffer e e_ok s) ok.fields_fit
              ok.distinct,
        )
        (rw few at load_posting_lists_lem (record before_fields { fields = s.fields }) refl)
    where
      few : length s.documents_ids % 2 ^ 32 ≡ length s.documents_ids
      few = omega (arith, ok.few_documents)

  save_to_eq : save_to e s ≡ chunks (header_chunks e s) (body e s)
  unfolding save_to save ensure_initialized
  save_to_eq = rw ok.is_initialized refl

  header_read :
      (length (chunks (header_chunks e s) (body e s)) ≡ 56 + length (body e s))
      × (drop 56 (chunks (header_chunks e s) (body e s)) ≡ body e s)
  unfolding header_chunks
  header_read = (
    length-chunks (header_chunks e s) (body e s) (header_chunks-IsChunks e e_ok s),
    drop-chunks (header_chunks e s) (body e s) (header_chunks-IsChunks e e_ok s),
  )

  -- For a storage that is initialized and fits the file, that is with integers in their
  -- width, fewer than 2^64 bytes in each array, distinct field hashes and, where it has
  -- posting list headers, a reference of the length they add up to and no more posting lists
  -- in memory than headers: `Load` of the file that `SaveTo` writes, into a fresh storage,
  -- returns no error, and the same documents, frequencies and fields with the posting lists
  -- in their reloaded form and the file's length as the size; if the file is only a header,
  -- it returns a fresh storage with the version, which is not initialized.
  pub load-save_to : load e zero_storage (save_to e s) ≡ loaded (reloaded e s)
  unfolding load
  load-save_to =
      rw
        (
          save_to_eq,
          header_read.1,
          header_read.0,
          room (length (body e s)),
          decode_header-header_chunks e e_ok s (body e s) header_of-IsHeader,
          load_body_lem,
        )
        (elim (Bool-cases (length (body e s) == 0)) [
          | inl nothing ↦ rw nothing refl
          | inr something ↦ rw (something, sub_zero (56 + length (body e s))) refl
        ])
    where
      room : (n : ℕ) → ltb (56 + n) 56 ≡ false
      room n = ground arith

      sub_zero : (n : ℕ) → n - 0 ≡ n
      sub_zero n = omega arith
