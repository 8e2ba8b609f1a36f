-- ===== src/Storage/File/Extend.antt =====
-- `Load` reads a file from its front: bytes behind a segment change nothing.
use textiplex.Prelude.{
  ℕ, zero, suc, ◌+◌, ◌*◌, ◌%◌, ◌^◌, ◌≤◌, ◌≡◌, refl, ap, List, [], ◌∷◌, ◌++◌, length, drop, take,
  arith, length-append, length-drop,
}
use textiplex.Bytes.{Bytes}
use textiplex.Storage.File.Endian.{Endian, read_at}
use textiplex.Storage.File.Records.{
  decode_header, decode_field_header, decode_document_id, decode_frequency, decode_length,
  decode_raw_value, decode_token, decode_posting_list_header,
}
use textiplex.Storage.File.Arrays.{section, decode_many, read_section}

module _ {ℓ} {A : Type ℓ} where
  pub take-append_front : (n : ℕ) (xs ys : List A) → n ≤ length xs → take n (xs ++ ys) ≡ take n xs
  take-append_front zero xs ys h = refl
  take-append_front (suc n) [] ys h = absurd (omega arith)
  take-append_front (suc n) (x ∷ xs) ys h =
      ap (λ l. x ∷ l) (take-append_front n xs ys (omega arith))

  pub drop-append_front :
      (n : ℕ) (xs ys : List A) → n ≤ length xs → drop n (xs ++ ys) ≡ drop n xs ++ ys
  drop-append_front zero xs ys h = refl
  drop-append_front (suc n) [] ys h = absurd (omega arith)
  drop-append_front (suc n) (x ∷ xs) ys h = drop-append_front n xs ys (omega arith)

  -- A part that lies within the front.
  part-append :
      (o w : ℕ) (xs ys : List A)
      → o + w ≤ length xs
      → take w (drop o (xs ++ ys)) ≡ take w (drop o xs)
  part-append o w xs ys h =
      rw (drop-append_front o xs ys (omega arith))
        (take-append_front w (drop o xs) ys (omega (arith, length-drop o xs)))

-- A record is read from its own bytes.
abbrev pub IsLocal : {A : Type 0} → (Bytes → A) → ℕ → Type 0
IsLocal dec size = (b extra : Bytes) → size ≤ length b → dec (b ++ extra) ≡ dec b

module _ (e : Endian) where
  read_at-append :
      (o w : ℕ) (b extra : Bytes) → o + w ≤ length b → read_at e o w (b ++ extra) ≡ read_at e o w b
  unfolding read_at
  read_at-append o w b extra h = ap (λ l. e.get l) (part-append o w b extra h)

  pub decode_frequency-IsLocal : IsLocal (decode_frequency e) 8
  unfolding decode_frequency
  decode_frequency-IsLocal b extra h =
      rw (read_at-append 0 4 b extra (omega arith), read_at-append 4 4 b extra (omega arith)) refl

  pub decode_length-IsLocal : IsLocal (decode_length e) 8
  unfolding decode_length
  decode_length-IsLocal b extra h =
      rw (read_at-append 0 4 b extra (omega arith), read_at-append 4 4 b extra (omega arith)) refl

  pub decode_posting_list_header-IsLocal : IsLocal (decode_posting_list_header e) 16
  unfolding decode_posting_list_header
  decode_posting_list_header-IsLocal b extra h =
      rw (read_at-append 0 8 b extra (omega arith), read_at-append 8 8 b extra (omega arith)) refl

  decode_raw_value-IsLocal : IsLocal (decode_raw_value e) 136
  unfolding decode_raw_value
  decode_raw_value-IsLocal b extra h =
      rw (read_at-append 0 8 b extra (omega arith), part-append 8 128 b extra (omega arith)) refl

  pub decode_document_id-IsLocal : IsLocal (decode_document_id e) 136
  unfolding decode_document_id
  decode_document_id-IsLocal b extra h =
      ap (λ v. record { value = v }) (decode_raw_value-IsLocal b extra h)

  pub decode_token-IsLocal : IsLocal (decode_token e) 160
  unfolding decode_token
  decode_token-IsLocal b extra h =
      rw
        (
          read_at-append 0 8 b extra (omega arith),
          read_at-append 8 8 b extra (omega arith),
          read_at-append 16 8 b extra (omega arith),
          drop-append_front 24 b extra (omega arith),
          decode_raw_value-IsLocal (drop 24 b) extra (omega (arith, length-drop 24 b)),
        )
        refl

  pub decode_header-IsLocal : IsLocal (decode_header e) 56
  unfolding decode_header
  decode_header-IsLocal b extra h =
      rw
        (
          read_at-append 0 8 b extra (omega arith),
          read_at-append 8 2 b extra (omega arith),
          read_at-append 16 4 b extra (omega arith),
          read_at-append 24 8 b extra (omega arith),
          read_at-append 32 8 b extra (omega arith),
          read_at-append 40 8 b extra (omega arith),
          read_at-append 48 8 b extra (omega arith),
        )
        refl

  pub decode_field_header-IsLocal : IsLocal (decode_field_header e) 48
  unfolding decode_field_header
  decode_field_header-IsLocal b extra h =
      rw
        (
          read_at-append 0 8 b extra (omega arith),
          read_at-append 8 4 b extra (omega arith),
          read_at-append 16 8 b extra (omega arith),
          read_at-append 24 8 b extra (omega arith),
          read_at-append 32 8 b extra (omega arith),
          read_at-append 40 8 b extra (omega arith),
        )
        refl

module _ {A : Type 0} (dec : Bytes → A) (size : ℕ) (local : IsLocal dec size) where
  decode_many-append :
      (n : ℕ) (b extra : Bytes)
      → size * n ≤ length b
      → decode_many dec size n (b ++ extra) ≡ decode_many dec size n b
  unfolding decode_many
  decode_many-append zero b extra h = refl
  decode_many-append (suc n) b extra h =
      rw
        (
          local b extra (grind arith),
          drop-append_front size b extra (grind arith),
          decode_many-append n (drop size b) extra (grind (arith, length-drop size b)),
        )
        refl

  -- An array that was read is read again when more bytes follow.
  pub read_section-append :
      (count : ℕ) (old xs : List A) (b rest extra : Bytes)
      → read_section dec size count old b ≡ section xs rest
      → read_section dec size count old (b ++ extra) ≡ section xs (rest ++ extra)
  unfolding read_section
  read_section-append count old xs b rest extra h = ground (
    arith,
    length-append b extra,
    decode_many-append count b extra,
    drop-append_front (size * count % 2 ^ 64) b extra,
  )
