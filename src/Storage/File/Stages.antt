-- ===== src/Storage/File/Stages.antt =====
-- Each step of `Load`, when more bytes follow.
use textiplex.Prelude.{
  ℕ, zero, suc, ◌*◌, ◌%◌, ◌^◌, ◌≤◌, ◌≡◌, refl, ap, Bool, true, false, List, [], ◌++◌, length, drop,
  ltb, ◌==◌, arith, length-append, if◌then◌else◌, Bool-cases, inl, inr, ◌⊎◌,
}
use textiplex.Bytes.{Bytes}
use textiplex.Storage.Headers.{Header, FieldHeader}
use textiplex.Storage.Segment.{Storage}
use textiplex.Storage.File.Endian.{Endian}
use textiplex.Storage.File.Records.{
  decode_field_header, decode_document_id, decode_frequency, decode_length, decode_token,
  decode_posting_list_header,
}
use textiplex.Storage.File.Arrays.{Section, short, crashed, section, read_section}
use textiplex.Storage.File.Load.{
  ◌>>=◌, >>=-eq-loaded, Outcome, loaded, failed, panicked, Loading, LoadError, load_body,
  load_documents, load_frequencies, load_fields, load_all_fields, load_field, load_field_arrays,
  load_posting_lists, load_data, fill_section,
}
use textiplex.Storage.File.Extend.{
  drop-append_front, take-append_front, read_section-append, decode_field_header-IsLocal,
  decode_token-IsLocal, decode_length-IsLocal, decode_document_id-IsLocal, decode_frequency-IsLocal,
  decode_posting_list_header-IsLocal,
}

abbrev pub extend : Bytes → Loading → Loading
extend extra st = record st { rest = st.rest ++ extra }

-- What a step makes of its bytes it makes of them when more follow.
abbrev pub IsExtendable : (Loading → Outcome Loading) → Type 0
IsExtendable f =
    (extra : Bytes) (st st' : Loading)
    → f st ≡ loaded st'
    → f (extend extra st) ≡ loaded (extend extra st')

section-cases :
    {A : Type 0} (m : Section A)
    → (m ≡ short) ⊎ (m ≡ crashed) ⊎ ((xs : List A) × (rest : Bytes) × (m ≡ section xs rest))
section-cases short = inl refl
section-cases crashed = inr (inl refl)
section-cases (section xs rest) = inr (inr (xs, rest, refl))

loaded_is : Loading → Outcome Loading → Loading
loaded_is st (loaded a) = a
loaded_is st (failed err s) = st
loaded_is st panicked = st

loaded-injective : (a b : Loading) → ◌≡◌ {A = Outcome Loading} (loaded a) (loaded b) → a ≡ b
unfolding loaded_is
loaded-injective a b h = ap (loaded_is a) h

-- Filling one array of the storage.
fill_section-extend :
    {A : Type 0} (err : LoadError) (s : Storage) (m m' : Section A) (f : List A → Storage)
    (extra : Bytes) (st' : Loading)
    → ((xs : List A) (rest : Bytes) → m ≡ section xs rest → m' ≡ section xs (rest ++ extra))
    → fill_section err s m f ≡ loaded st'
    → fill_section err s m' f ≡ loaded (extend extra st')
fill_section-extend err s short m' f extra st' grow h = cc
fill_section-extend err s crashed m' f extra st' grow h = cc
fill_section-extend err s (section xs rest) m' f extra st' grow h =
    rw (grow xs rest refl) (ap (λ l. loaded (extend extra l)) (loaded-injective _ _ h))

ltb-false : (a b : ℕ) → ltb a b ≡ false → b ≤ a
ltb-false a b h = ground arith

room_for_more :
    (rest extra : Bytes) (n : ℕ)
    → ltb (length rest) n ≡ false
    → ltb (length (rest ++ extra)) n ≡ false
room_for_more rest extra n h = ground (arith, length-append rest extra)

either_extend :
    (c : Bool) (st st' : Loading) (extra : Bytes) (m m' : Outcome Loading)
    → (m ≡ loaded st' → m' ≡ loaded (extend extra st'))
    → (if c then loaded st else m) ≡ loaded st'
    → (if c then loaded (extend extra st) else m') ≡ loaded (extend extra st')
either_extend true st st' extra m m' grow ok =
    ap (λ l. loaded (extend extra l)) (loaded-injective _ _ ok)
either_extend false st st' extra m m' grow ok = grow ok

module _ (e : Endian) where
  load_documents-IsExtendable : (h : Header) → IsExtendable (load_documents e h)
  unfolding load_documents
  load_documents-IsExtendable h extra st st' ok =
      fill_section-extend _ _ _ _ _ extra st'
        (λ xs rest.
          read_section-append (decode_document_id e) 136 (decode_document_id-IsLocal e)
            h.total_documents st.storage.documents_ids xs st.rest rest extra)
        ok

  load_frequencies-IsExtendable : (h : Header) → IsExtendable (load_frequencies e h)
  unfolding load_frequencies
  load_frequencies-IsExtendable h extra st st' ok =
      fill_section-extend _ _ _ _ _ extra st'
        (λ xs rest.
          read_section-append (decode_frequency e) 8 (decode_frequency-IsLocal e)
            h.total_token_frequencies st.storage.token_frequencies xs st.rest rest extra)
        ok

  load_field_arrays-IsExtendable : (h : FieldHeader) → IsExtendable (load_field_arrays e h)
  unfolding load_field_arrays
  load_field_arrays-IsExtendable h extra st st' ok =
      elim (section-cases (read_section (decode_length e) 8 h.document_length_count [] st.rest)) [
        | inl e₁ ↦ absurd (ground (arith, e₁))
        | inr (inl e₁) ↦ absurd (ground (arith, e₁))
        | inr (inr (xs, rest, e₁)) ↦
            rw
              (
                read_section-append (decode_length e) 8 (decode_length-IsLocal e)
                    h.document_length_count [] xs st.rest rest extra e₁,
                load_field_arrays,
              )
              (fill_section-extend _ _ _ _ _ extra st'
                (λ ts r.
                  read_section-append (decode_token e) 160 (decode_token-IsLocal e) h.token_count []
                    ts rest r extra)
                (rw (e₁, load_field_arrays) at ok))
      ]

  load_field-IsExtendable : IsExtendable (load_field e)
  unfolding load_field
  load_field-IsExtendable extra st st' ok = elim (Bool-cases (ltb (length st.rest) 48)) [
    | inl full ↦ absurd (ground (arith, full))
    | inr room ↦
        rw
          (
            room_for_more st.rest extra 48 room,
            drop-append_front 48 st.rest extra (ltb-false _ _ room),
            decode_field_header-IsLocal e st.rest extra (ltb-false _ _ room),
          )
          (load_field_arrays-IsExtendable (decode_field_header e st.rest) extra
            (record st { rest = drop 48 st.rest }) st' (rw room at ok))
  ]

  load_fields-IsExtendable : (n : ℕ) → IsExtendable (load_fields e n)
  unfolding load_fields
  load_fields-IsExtendable zero extra st st' ok =
      ap (λ l. loaded (extend extra l)) (loaded-injective _ _ ok)
  load_fields-IsExtendable (suc n) extra st st' ok =
      let (mid, first, next) = >>=-eq-loaded (load_field e st) _ ok in
      rw (load_field-IsExtendable extra st mid first)
        (load_fields-IsExtendable n extra mid st' next)

  load_data-extend :
      (size : ℕ) (s : Storage) (rest extra : Bytes) (st' : Loading)
      → load_data e size s rest ≡ loaded st'
      → load_data e size s (rest ++ extra) ≡ loaded (extend extra st')
  unfolding load_data
  load_data-extend size s rest extra st' ok = ground (
    arith,
    length-append rest extra,
    drop-append_front size rest extra,
    take-append_front size rest extra,
  )

  load_posting_lists-IsExtendable : (h : Header) → IsExtendable (load_posting_lists e h)
  unfolding load_posting_lists
  load_posting_lists-IsExtendable h extra st st' ok =
      elim (section-cases
        (read_section (decode_posting_list_header e) 16 h.total_posting_lists [] st.rest)) [
          | inl e₁ ↦ absurd (ground (arith, e₁))
          | inr (inl e₁) ↦ absurd (ground (arith, e₁))
          | inr (inr (xs, rest, e₁)) ↦
              rw
                (
                  read_section-append (decode_posting_list_header e) 16
                      (decode_posting_list_header-IsLocal e) h.total_posting_lists [] xs st.rest
                      rest extra e₁,
                  load_posting_lists,
                )
                (either_extend (16 * h.total_posting_lists % 2 ^ 64 == 0) st st' extra _ _
                  (load_data-extend h.total_posting_lists_data_size _ rest extra st')
                  (rw (e₁, load_posting_lists) at ok))
        ]

  pub load_body-IsExtendable : (h : Header) → IsExtendable (load_body e h)
  unfolding load_body
  load_body-IsExtendable h extra st st' ok =
      let (c, third, last) =
        >>=-eq-loaded (load_documents e h st >>= load_frequencies e h >>= load_all_fields e h) _
          ok in
      let (b, second, third') =
        >>=-eq-loaded (load_documents e h st >>= load_frequencies e h) _ third in
      let (a, first, second') = >>=-eq-loaded (load_documents e h st) _ second in
      rw
        (
          load_documents-IsExtendable h extra st a first,
          load_frequencies-IsExtendable h extra a b second',
          load_fields-IsExtendable h.field_count extra
              (record b { storage = record b.storage { fields = [] } }) c third',
        )
        (load_posting_lists-IsExtendable h extra c st' last)
