-- ===== src/Storage/File/Lists.antt =====
-- The posting lists of a storage as the file has them: headers, and the bytes they point into.
use textiplex.Prelude.{
  ℕ, suc, zero, some, get_elem?, get_elem?_total, ◌+◌, ◌⊎◌, length-map, ◌^◌, ◌<◌, ◌≤◌, ◌≡◌, refl,
  sym, ap, ◌∙◌, List, [], ◌∷◌, ◌++◌, length, All, map, arith, length-append,
}
use mathlib.Core.List.{append_assoc, append-nil}
use mathlib.Core.Option.{some-injective}
use textiplex.Bytes.{Bytes}
use textiplex.Storage.Headers.{PostingListHeader, max_posting_list_headers_batch}
use textiplex.Storage.Segment.{
  PostingList, PostingLists, posting_lists_len, posting_lists_data_size, sum_entry_lengths,
  sum_header_lengths, get_posting_list, get_by_header,
}
use textiplex.Storage.Merge.Assemble.{PostingWriter, write_posting_list, flush_headers}
use textiplex.Storage.Merge.Postings.{write_posting_list_lem, headers_of, headers_of-slice, join}
use textiplex.Storage.File.Endian.{Endian}
use textiplex.Storage.File.Records.{IsPostingListHeader, encode_posting_list_header}
use textiplex.Storage.File.Arrays.{encode_all}
use textiplex.Storage.File.Save.{write_entries, initial_writer, save_posting_lists}
use textiplex.Storage.File.Storable.{IsStorablePostingLists}

abbrev pub entry_bytes : List PostingList → List Bytes
entry_bytes entries = map (λ entry. entry.bytes) entries

abbrev headers_in : List PostingListHeader → List PostingList → List PostingListHeader
headers_in (h ∷ hs) entries = h ∷ hs
headers_in [] entries = headers_of 0 (entry_bytes entries)

abbrev reference_in : Bytes → List PostingListHeader → List PostingList → Bytes
reference_in reference (h ∷ hs) entries = reference
reference_in reference [] entries = join (entry_bytes entries)

abbrev pub saved_headers : PostingLists → List PostingListHeader
saved_headers p = headers_in p.headers p.entries

abbrev pub saved_reference : PostingLists → Bytes
saved_reference p = reference_in p.reference p.headers p.entries

-- What `Load` makes of them.
abbrev pub reloaded_lists : PostingLists → PostingLists
reloaded_lists p = record { reference = saved_reference p; headers = saved_headers p; entries = [] }

write_entries_lem :
    (n : ℕ) (entries : List PostingList) (w : PostingWriter)
    → (flush_headers (write_entries n w entries)
        ≡ flush_headers w ++ headers_of w.offset (entry_bytes entries))
      × ((write_entries n w entries).bytes ≡ w.bytes ++ join (entry_bytes entries))
unfolding write_entries
write_entries_lem n [] w = (sym (append-nil _), sym (append-nil _))
write_entries_lem n (entry ∷ entries) w =
    let (heads, moved, grown) = write_posting_list_lem n w entry.bytes in
    let (heads', grown') = write_entries_lem n entries (write_posting_list n w entry.bytes) in
    (
      rw (heads', heads, moved) (append_assoc (flush_headers w) _ _),
      rw (grown', grown) (append_assoc w.bytes _ _),
    )

write_all_lem :
    (n : ℕ) (entries : List PostingList)
    → (flush_headers (write_entries n initial_writer entries) ≡ headers_of 0 (entry_bytes entries))
      × ((write_entries n initial_writer entries).bytes ≡ join (entry_bytes entries))
unfolding flush_headers
write_all_lem n entries = write_entries_lem n entries initial_writer

module _ (e : Endian) (reference : Bytes) where
  save_posting_lists_lem :
      (headers : List PostingListHeader) (entries : List PostingList)
      → save_posting_lists e
          (record { reference = reference; headers = headers; entries = entries })
        ≡ encode_all (encode_posting_list_header e) (headers_in headers entries)
          ++ reference_in reference headers entries
  unfolding save_posting_lists encode_all
  save_posting_lists_lem (h ∷ hs) entries = refl
  save_posting_lists_lem [] [] = refl
  save_posting_lists_lem [] (entry ∷ entries) =
      let (heads, grown) =
        write_all_lem (max_posting_list_headers_batch (length (entry ∷ entries)))
          (entry ∷ entries) in
      rw (heads, grown) refl

length-headers_of : (o : ℕ) (bs : List Bytes) → length (headers_of o bs) ≡ length bs
length-headers_of o [] = refl
length-headers_of o (b ∷ bs) = ap suc (length-headers_of (o + length b) bs)

length-join-entry_bytes :
    (entries : List PostingList) → length (join (entry_bytes entries)) ≡ sum_entry_lengths entries
unfolding sum_entry_lengths
length-join-entry_bytes [] = refl
length-join-entry_bytes (x ∷ entries) =
    omega
      (arith, length-append x.bytes (join (entry_bytes entries)), length-join-entry_bytes entries)

sum_header_lengths-headers_of :
    (o : ℕ) (bs : List Bytes) → sum_header_lengths (headers_of o bs) ≡ length (join bs)
unfolding sum_header_lengths
sum_header_lengths-headers_of o [] = refl
sum_header_lengths-headers_of o (b ∷ bs) =
    omega (arith, length-append b (join bs), sum_header_lengths-headers_of (o + length b) bs)

headers_of-fit :
    (o : ℕ) (bs : List Bytes)
    → o + length (join bs) < 2 ^ 64
    → All IsPostingListHeader (headers_of o bs)
headers_of-fit o [] h = tt
headers_of-fit o (b ∷ bs) h = (
  (omega (arith, length-append b (join bs)), omega (arith, length-append b (join bs))),
  headers_of-fit (o + length b) bs (omega (arith, length-append b (join bs))),
)

get_elem?-entry_bytes :
    (entries : List PostingList) (i : ℕ) (x : PostingList)
    → get_elem? entries i ≡ some x
    → get_elem? (entry_bytes entries) i ≡ some x.bytes
get_elem?-entry_bytes [] i x h = ground arith
get_elem?-entry_bytes (y ∷ entries) zero x h =
    ap (λ (l : PostingList). some l.bytes) (some-injective _ _ h)
get_elem?-entry_bytes (y ∷ entries) (suc i) x h = get_elem?-entry_bytes entries i x h

get_by_header_lem :
    (entries : List PostingList) (i : ℕ)
    → i < length entries
    → get_by_header (join (entry_bytes entries)) (get_elem? (headers_of 0 (entry_bytes entries)) i)
      ≡ get_elem? entries i
unfolding get_by_header
get_by_header_lem entries i small =
    let (x, here) = get_elem?_total entries i small in
    let (h, there) = get_elem?_total (headers_of 0 (entry_bytes entries)) i (
      omega (
        arith,
        length-headers_of 0 (entry_bytes entries),
        length-map (λ (l : PostingList). l.bytes) entries,
      )) in
    rw
      (
        there,
        here,
        headers_of-slice (entry_bytes entries) [] 0 i h x.bytes refl there
            (get_elem?-entry_bytes entries i x here),
      )
      refl

module _ (reference : Bytes) where
  abbrev lists : List PostingListHeader → List PostingList → PostingLists
  lists headers entries = record { reference = reference; headers = headers; entries = entries }

  len_eq :
      (headers : List PostingListHeader) (entries : List PostingList)
      → (headers ≡ []) ⊎ (length entries ≤ length headers)
      → posting_lists_len (lists headers entries) ≡ length (headers_in headers entries)
  unfolding posting_lists_len
  len_eq (h ∷ hs) entries fewer = ground arith
  len_eq [] entries fewer = omega (
    arith,
    length-headers_of 0 (entry_bytes entries),
    length-map (λ (x : PostingList). x.bytes) entries,
  )

  size_eq :
      (headers : List PostingListHeader) (entries : List PostingList)
      → (headers ≡ []) ⊎ (posting_lists_data_size (lists headers entries) ≡ length reference)
      → posting_lists_data_size (lists headers entries)
        ≡ length (reference_in reference headers entries)
  unfolding posting_lists_data_size
  size_eq (h ∷ hs) entries whole = ground arith
  size_eq [] entries whole = sym (length-join-entry_bytes entries)

  reloaded_size_eq :
      (headers : List PostingListHeader) (entries : List PostingList)
      → posting_lists_data_size (reloaded_lists (lists headers entries))
        ≡ posting_lists_data_size (lists headers entries)
  unfolding posting_lists_data_size sum_entry_lengths
  reloaded_size_eq (h ∷ hs) entries = refl
  reloaded_size_eq [] [] = refl
  reloaded_size_eq [] (x ∷ entries) =
      sum_header_lengths-headers_of 0 (entry_bytes (x ∷ entries))
      ∙ length-join-entry_bytes (x ∷ entries)

  fit_in :
      (headers : List PostingListHeader) (entries : List PostingList)
      → All IsPostingListHeader headers
      → posting_lists_data_size (lists headers entries) < 2 ^ 64
      → All IsPostingListHeader (headers_in headers entries)
  unfolding posting_lists_data_size
  fit_in (h ∷ hs) entries fit small = fit
  fit_in [] entries fit small =
      headers_of-fit 0 (entry_bytes entries) (omega (arith, length-join-entry_bytes entries))

  get_eq :
      (headers : List PostingListHeader) (entries : List PostingList) (i : ℕ)
      → i < posting_lists_len (lists headers entries)
      → get_posting_list (reloaded_lists (lists headers entries)) i
        ≡ get_posting_list (lists headers entries) i
  unfolding get_posting_list posting_lists_len
  get_eq (h ∷ hs) entries i small = refl
  get_eq [] [] i small = refl
  get_eq [] (x ∷ entries) i small = get_by_header_lem (x ∷ entries) i (ground arith)

same_size :
    (r r' : Bytes) (headers : List PostingListHeader)
    → posting_lists_data_size (record { reference = r; headers = headers; entries = [] })
      ≡ posting_lists_data_size (record { reference = r'; headers = headers; entries = [] })
unfolding posting_lists_data_size
same_size r r' headers = refl

nothing_in :
    (reference : Bytes) (headers : List PostingListHeader) (entries : List PostingList)
    → length (headers_in headers entries) ≡ 0
    → (headers_in headers entries ≡ []) × (reference_in reference headers entries ≡ [])
nothing_in reference (h ∷ hs) entries absent = absurd (omega arith)
nothing_in reference [] [] absent = (refl, refl)
nothing_in reference [] (x ∷ entries) absent = absurd (omega arith)

module _ (p : PostingLists) (ok : IsStorablePostingLists p) where
  pub save_posting_lists_eq :
      (e : Endian)
      → save_posting_lists e p
        ≡ encode_all (encode_posting_list_header e) (saved_headers p) ++ saved_reference p
  save_posting_lists_eq e = save_posting_lists_lem e p.reference p.headers p.entries

  pub posting_lists_len-saved_headers : posting_lists_len p ≡ length (saved_headers p)
  posting_lists_len-saved_headers = len_eq p.reference p.headers p.entries ok.no_more_entries

  pub posting_lists_data_size-saved_reference :
      posting_lists_data_size p ≡ length (saved_reference p)
  posting_lists_data_size-saved_reference = size_eq p.reference p.headers p.entries ok.whole

  -- The sum of the lengths reads the headers alone, before there is a reference.
  pub posting_lists_data_size-headers :
      posting_lists_data_size (record { reference = []; headers = saved_headers p; entries = [] })
      ≡ posting_lists_data_size p
  posting_lists_data_size-headers =
      same_size [] (saved_reference p) (saved_headers p)
      ∙ reloaded_size_eq p.reference p.headers p.entries

  pub nothing_saved :
      posting_lists_len p ≡ 0
      → reloaded_lists p ≡ record { reference = []; headers = []; entries = [] }
  nothing_saved absent =
      let (heads, reference) =
        nothing_in p.reference p.headers p.entries (sym posting_lists_len-saved_headers ∙ absent) in
      rw (heads, reference) refl

  pub saved_headers-fit : All IsPostingListHeader (saved_headers p)
  saved_headers-fit = fit_in p.reference p.headers p.entries ok.headers_fit ok.small

-- For an index below the number of posting lists: the headers and the reference that stand in
-- the file for the posting lists give the same list under `Get` as the posting lists in
-- memory.
pub get_posting_list-reloaded :
    (p : PostingLists) (i : ℕ)
    → i < posting_lists_len p
    → get_posting_list (reloaded_lists p) i ≡ get_posting_list p i
get_posting_list-reloaded p = get_eq p.reference p.headers p.entries
