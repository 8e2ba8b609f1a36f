-- ===== src/Storage/File/Reload.antt =====
-- `Load` after `SaveTo`: each part of a segment is read back as it was written.
use textiplex.Prelude.{
  ℕ, ◌≤◌, ◌≡◌, refl, ap, ◌∙◌, false, [], ◌∷◌, ◌++◌, length, drop, ltb, arith, All, IsChain,
}
use mathlib.Core.List.{append_assoc, append-nil}
use textiplex.Bytes.{Bytes}
use textiplex.Storage.Segment.{Storage, Field, Fields}
use textiplex.Storage.File.Endian.{Endian, IsEndian}
use textiplex.Storage.File.Records.{
  chunks, encode_length, decode_length, encode_token, decode_token, IsLength, IsToken,
}
use textiplex.Storage.File.Reread.{
  chunks-append, length-chunks, drop-chunks, decode-encode_length, length-encode_length,
  decode-encode_token, length-encode_token,
}
use textiplex.Storage.File.Arrays.{encode_all, read_section, section, read_section-encode_all}
use textiplex.Storage.File.Save.{field_chunks, save_field, save_fields}
use textiplex.Storage.File.Load.{
  loaded, with_field, put_field, new_field, load_field_arrays, load_field, load_fields,
}
use textiplex.Storage.File.Storable.{IsStorableField, HasOtherKey}
use textiplex.Storage.File.Headers.{
  field_header_of, IsFieldHeader, decode_field_header-field_chunks, field_chunks-IsChunks,
}

field_header_of-IsFieldHeader :
    (h : ℕ) (f : Field) → IsStorableField (h, f) → IsFieldHeader (field_header_of h f)
field_header_of-IsFieldHeader h f (hash, average, total, frequencies, _, tokens, _, lengths) =
    (hash, average, total, omega arith, frequencies, omega arith)

ge→ltb : (a b : ℕ) → b ≤ a → ltb a b ≡ false
ge→ltb a b h = ground arith

-- A key that the map does not have goes to its end.
put_field-new :
    (h : ℕ) (f : Field) (fields : Fields)
    → All (λ g. HasOtherKey g (h, f)) fields
    → put_field h f fields ≡ fields ++ (h, f) ∷ []
unfolding put_field
put_field-new h f [] other = refl
put_field-new h f ((k, g) ∷ fields) other = ground (arith, put_field-new h f fields other.1)

other_keys :
    (h : ℕ) (f : Field) (done fields : Fields)
    → IsChain HasOtherKey (done ++ (h, f) ∷ fields)
    → All (λ g. HasOtherKey g (h, f)) done
other_keys h f [] fields distinct = tt
other_keys h f (g ∷ done) fields distinct =
    (All-middle done distinct.0, other_keys h f done fields distinct.1)
  where
    All-middle :
        (done : Fields) → All (HasOtherKey g) (done ++ (h, f) ∷ fields) → HasOtherKey g (h, f)
    All-middle [] all = all.0
    All-middle (x ∷ done) all = All-middle done all.1

module _ (e : Endian) (e_ok : IsEndian e) where
  reread_lengths :
      (f : Field) (h : ℕ) (b : Bytes)
      → IsStorableField (h, f)
      → read_section
          (decode_length e)
          8
          (length f.document_lengths)
          []
          (encode_all (encode_length e) f.document_lengths ++ b)
        ≡ section f.document_lengths b
  reread_lengths f h b (_, _, _, _, _, _, fit, small) =
      read_section-encode_all (encode_length e) (decode_length e) 8 IsLength
        (decode-encode_length e e_ok) (λ l _. length-encode_length e e_ok l) f.document_lengths b
        (omega arith) fit small

  reread_tokens :
      (f : Field) (h : ℕ) (b : Bytes)
      → IsStorableField (h, f)
      → read_section
          (decode_token e)
          160
          (length f.tokens)
          []
          (encode_all (encode_token e) f.tokens ++ b)
        ≡ section f.tokens b
  reread_tokens f h b (_, _, _, _, fit, small, _, _) =
      read_section-encode_all (encode_token e) (decode_token e) 160 IsToken
        (decode-encode_token e e_ok) (length-encode_token e e_ok) f.tokens b (omega arith) fit small

  load_field_arrays_lem :
      (h : ℕ) (f : Field) (s : Storage) (b : Bytes)
      → IsStorableField (h, f)
      → load_field_arrays e (field_header_of h f) (record {
        storage = s;
        rest =
            encode_all (encode_length e) f.document_lengths
            ++ (encode_all (encode_token e) f.tokens ++ b);
      })
        ≡ loaded (record { storage = with_field s h f; rest = b })
  unfolding load_field_arrays new_field
  load_field_arrays_lem h f s b ok =
      rw
        (
          reread_lengths f h (encode_all (encode_token e) f.tokens ++ b) ok,
          load_field_arrays,
          reread_tokens f h b ok,
        )
        refl

  save_field-append :
      (buffer : Bytes) (h : ℕ) (f : Field) (b : Bytes)
      → save_field e buffer h f ++ b
        ≡ chunks (field_chunks e buffer h f) (
            encode_all (encode_length e) f.document_lengths
            ++ (encode_all (encode_token e) f.tokens ++ b))
  unfolding save_field
  save_field-append buffer h f b =
      chunks-append (field_chunks e buffer h f) _ b
      ∙ ap (λ l. chunks (field_chunks e buffer h f) l) (append_assoc _ _ b)

  field_header_read :
      (buffer : Bytes) (h : ℕ) (f : Field) (tail : Bytes)
      → length buffer ≡ 8
      → drop 48 (chunks (field_chunks e buffer h f) tail) ≡ tail
  unfolding field_chunks
  field_header_read buffer h f tail eight =
      drop-chunks (field_chunks e buffer h f) tail (field_chunks-IsChunks e e_ok buffer h f eight)

  field_header_room :
      (buffer : Bytes) (h : ℕ) (f : Field) (tail : Bytes)
      → length buffer ≡ 8
      → ltb (length (chunks (field_chunks e buffer h f) tail)) 48 ≡ false
  unfolding field_chunks
  field_header_room buffer h f tail eight = ge→ltb _ _ (
      omega (
        arith,
        length-chunks (field_chunks e buffer h f) tail
            (field_chunks-IsChunks e e_ok buffer h f eight),
      ))

  load_field-save_field :
      (buffer : Bytes) (h : ℕ) (f : Field) (s : Storage) (b : Bytes)
      → length buffer ≡ 8
      → IsStorableField (h, f)
      → load_field e (record { storage = s; rest = save_field e buffer h f ++ b })
        ≡ loaded (record { storage = with_field s h f; rest = b })
  unfolding load_field
  load_field-save_field buffer h f s b eight ok =
      rw
        (
          save_field-append buffer h f b,
          decode_field_header-field_chunks e e_ok buffer h f _ eight
              (field_header_of-IsFieldHeader h f ok),
          field_header_read buffer h f tail eight,
          field_header_room buffer h f tail eight,
          load_field_arrays_lem h f s b ok,
        )
        refl
    where
      tail : Bytes
      tail =
          encode_all (encode_length e) f.document_lengths
          ++ (encode_all (encode_token e) f.tokens ++ b)

  -- What the storage holds after the fields `done`.
  abbrev holding : Storage → Fields → Storage
  holding s fields = record s { fields = fields }

  pub load_fields-save_fields :
      (fields done : Fields) (buffer : Bytes) (s : Storage) (b : Bytes)
      → length buffer ≡ 8
      → All IsStorableField fields
      → IsChain HasOtherKey (done ++ fields)
      → load_fields e
          (length fields)
          (record { storage = holding s done; rest = save_fields e buffer fields ++ b })
        ≡ loaded (record { storage = holding s (done ++ fields); rest = b })
  unfolding load_fields save_fields
  load_fields-save_fields [] done buffer s b eight fit distinct = rw (append-nil done) refl
  load_fields-save_fields ((h, f) ∷ fields) done buffer s b eight fit distinct =
      rw
        (
          append_assoc (save_field e buffer h f) (save_fields e next fields) b,
          load_field-save_field buffer h f (holding s done) (save_fields e next fields ++ b) eight
              fit.0,
          put_field-new h f done (other_keys h f done fields distinct),
          ← append_assoc done ((h, f) ∷ []) fields,
        )
        (load_fields-save_fields fields (done ++ (h, f) ∷ []) next s b (e_ok.0 8 _) fit.1
          (rw (append_assoc done ((h, f) ∷ []) fields) distinct))
    where
      next : Bytes
      next = e.put 8 (length f.document_lengths)
