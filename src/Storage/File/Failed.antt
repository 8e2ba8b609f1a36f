-- ===== src/Storage/File/Failed.antt =====
-- What a failed `Load` leaves behind.
use textiplex.Prelude.{
  ℕ, zero, suc, ◌*◌, ◌%◌, ◌^◌, ◌≡◌, refl, Bool, true, false, List, [], length, drop, ap, sym, ◌∙◌,
  ltb, ◌==◌, if◌then◌else◌, Bool-cases, inl, inr,
}
use textiplex.Bytes.{Bytes}
use textiplex.Storage.Headers.{Header, FieldHeader}
use textiplex.Storage.Segment.{Storage}
use textiplex.Storage.File.Endian.{Endian}
use textiplex.Storage.File.Records.{
  decode_header, decode_field_header, decode_length, decode_token, decode_posting_list_header,
}
use textiplex.Storage.File.Arrays.{Section, short, crashed, section, read_section}
use textiplex.Storage.File.Load.{
  ◌>>=◌, Outcome, loaded, failed, panicked, Loading, LoadError, load, load_body, load_documents,
  load_frequencies, load_fields, load_all_fields, load_field, load_field_arrays, load_posting_lists,
  load_data, fill_section, after_section, with_headers, no_document_lengths, no_tokens, with_field,
  new_field, no_posting_list_headers,
}

cold_of : Outcome Storage → Bool
cold_of (loaded s) = true
cold_of (failed err s) = s.initialized
cold_of panicked = true

-- The storage that an outcome leaves is not initialized.
IsCold : Outcome Loading → Type 0
IsCold (loaded st) = st.storage.initialized ≡ false
IsCold (failed err s) = s.initialized ≡ false
IsCold panicked = Unit

loaded-IsCold : (st : Loading) → st.storage.initialized ≡ false → IsCold (loaded st)
unfolding IsCold
loaded-IsCold st h = h

failed-IsCold : (err : LoadError) (s : Storage) → s.initialized ≡ false → IsCold (failed err s)
unfolding IsCold
failed-IsCold err s h = h

not_failed :
    {s t : Storage} {err : LoadError} → ◌≡◌ {A = Outcome Storage} (loaded s) (failed err t) → ⊥
not_failed h = cc

cold_failed :
    (m : Outcome Loading) (g : Loading → Storage) (err : LoadError) (s : Storage)
    → IsCold m
    → (m >>= λ l. loaded (g l)) ≡ failed err s
    → s.initialized ≡ false
unfolding cold_of IsCold
cold_failed (loaded l) g err s h k = absurd (not_failed k)
cold_failed (failed err' t) g err s h k = sym (ap cold_of k) ∙ h
cold_failed panicked g err s h k = cc

IsCold-bind :
    (m : Outcome Loading) (f : Loading → Outcome Loading)
    → IsCold m
    → ((st : Loading) → st.storage.initialized ≡ false → IsCold (f st))
    → IsCold (m >>= f)
unfolding IsCold
IsCold-bind (loaded st) f h k = k st h
IsCold-bind (failed err s) f h k = h
IsCold-bind panicked f h k = tt

fill_section-IsCold :
    {A : Type 0} (err : LoadError) (s : Storage) (m : Section A) (f : List A → Storage)
    → s.initialized ≡ false
    → ((xs : List A) → (f xs).initialized ≡ false)
    → IsCold (fill_section err s m f)
unfolding IsCold
fill_section-IsCold err s short f h k = h
fill_section-IsCold err s crashed f h k = tt
fill_section-IsCold err s (section xs rest) f h k = k xs

after_section-IsCold :
    {A : Type 0} (err : LoadError) (s : Storage) (m : Section A)
    (f : List A → Bytes → Outcome Loading)
    → s.initialized ≡ false
    → ((xs : List A) (rest : Bytes) → IsCold (f xs rest))
    → IsCold (after_section err s m f)
unfolding IsCold
after_section-IsCold err s short f h k = h
after_section-IsCold err s crashed f h k = tt
after_section-IsCold err s (section xs rest) f h k = k xs rest

either-IsCold :
    (c : Bool) (m m' : Outcome Loading) → IsCold m → IsCold m' → IsCold (if c then m else m')
either-IsCold true m m' h k = h
either-IsCold false m m' h k = k

module _ (e : Endian) where
  load_field_arrays-IsCold :
      (h : FieldHeader) (st : Loading)
      → st.storage.initialized ≡ false
      → IsCold (load_field_arrays e h st)
  unfolding load_field_arrays
  load_field_arrays-IsCold h st cold =
      after_section-IsCold no_document_lengths (with_field st.storage h.hash (new_field h))
        (read_section (decode_length e) 8 h.document_length_count [] st.rest) _ cold
        (λ lengths rest.
          fill_section-IsCold no_tokens
            (with_field st.storage h.hash (record (new_field h) { document_lengths = lengths }))
            (read_section (decode_token e) 160 h.token_count [] rest)
            (λ tokens.
              with_field st.storage h.hash
                (record (new_field h) { document_lengths = lengths; tokens = tokens }))
            cold (λ tokens. cold))

  load_field-IsCold : (st : Loading) → st.storage.initialized ≡ false → IsCold (load_field e st)
  unfolding load_field
  load_field-IsCold st cold = either-IsCold (ltb (length st.rest) 48) _ _ (failed-IsCold _ _ cold) (
      load_field_arrays-IsCold (decode_field_header e st.rest)
        (record st { rest = drop 48 st.rest }) cold)

  load_fields-IsCold :
      (n : ℕ) (st : Loading) → st.storage.initialized ≡ false → IsCold (load_fields e n st)
  unfolding load_fields
  load_fields-IsCold zero st cold = loaded-IsCold st cold
  load_fields-IsCold (suc n) st cold =
      IsCold-bind (load_field e st) (load_fields e n) (load_field-IsCold st cold)
        (load_fields-IsCold n)

  load_data-IsCold :
      (size : ℕ) (s : Storage) (rest : Bytes)
      → s.initialized ≡ false
      → IsCold (load_data e size s rest)
  unfolding load_data
  load_data-IsCold size s rest cold =
      either-IsCold (ltb (length rest) size) _ _ (failed-IsCold _ _ cold)
        (either-IsCold _ _ _ (loaded-IsCold _ cold) (failed-IsCold _ _ cold))

  load_posting_lists-IsCold :
      (h : Header) (st : Loading)
      → st.storage.initialized ≡ false
      → IsCold (load_posting_lists e h st)
  unfolding load_posting_lists
  load_posting_lists-IsCold h st cold =
      after_section-IsCold no_posting_list_headers st.storage
        (read_section (decode_posting_list_header e) 16 h.total_posting_lists [] st.rest) _ cold
        (λ headers rest.
          either-IsCold (16 * h.total_posting_lists % 2 ^ 64 == 0) _ _ (loaded-IsCold st cold) (
            load_data-IsCold h.total_posting_lists_data_size (with_headers st.storage headers) rest
              cold))

  load_body-IsCold :
      (h : Header) (st : Loading) → st.storage.initialized ≡ false → IsCold (load_body e h st)
  unfolding load_body load_documents load_frequencies
  load_body-IsCold h st cold =
      IsCold-bind _ (load_posting_lists e h)
        (IsCold-bind _ (load_all_fields e h)
          (IsCold-bind (load_documents e h st) (load_frequencies e h)
            (fill_section-IsCold _ _ _ _ cold (λ xs. cold))
            (λ s c. fill_section-IsCold _ _ _ _ c (λ xs. c)))
          (λ s c. load_fields-IsCold h.field_count _ c))
        (load_posting_lists-IsCold h)

  -- When `Load` returns an error, for any file and any storage before, the storage is not
  -- initialized.
  pub load-failed :
      (s0 s : Storage) (b : Bytes) (err : LoadError)
      → load e s0 b ≡ failed err s
      → s.initialized ≡ false
  unfolding load cold_of
  load-failed s0 s b err h = elim (Bool-cases (ltb (length b) 56)) [
    | inl full ↦ ap cold_of (sym (rw full at h))
    | inr room ↦ elim (Bool-cases (length (drop 56 b) == 0)) [
      | inl nothing ↦ absurd (not_failed (rw (room, nothing) at h))
      | inr something ↦
          cold_failed _ _ err s (load_body-IsCold (decode_header e b) _ refl)
            (rw (room, something) at h)
    ]
  ]
