-- ===== src/Storage/File/Arrays.antt =====
-- The arrays of a segment file: `pointers.UnsafeSliceBytes` of a slice of records writes them, and
-- `unsafe.Slice` reads them where they lie.
use textiplex.Prelude.{
  ℕ, zero, suc, ◌*◌, ◌%◌, ◌^◌, ◌<◌, ◌≤◌, ◌≡◌, refl, ◌∙◌, List, [], ◌∷◌, ◌++◌, length, drop, All,
  arith, ltb, ◌==◌, if◌then◌else◌, length-append,
}
use mathlib.Core.List.{append_assoc}
use textiplex.Bytes.{Bytes}
use textiplex.Storage.File.Endian.{drop-append_eq}

module _ {A : Type 0} where
  unfoldable pub encode_all : (A → Bytes) → List A → Bytes
  encode_all enc [] = []
  encode_all enc (x ∷ xs) = enc x ++ encode_all enc xs

  unfoldable pub decode_many : (Bytes → A) → ℕ → ℕ → Bytes → List A
  decode_many dec size zero b = []
  decode_many dec size (suc n) b = dec b ∷ decode_many dec size n (drop size b)

-- What `Load` finds where an array should lie: too few bytes, a slice that `unsafe.Slice` panics
-- at, or the array and what follows it.
pub data Section (A : Type 0) : Type 0 where
  short : Section A
  crashed : Section A
  section : List A → Bytes → Section A

module _ {A : Type 0} where
  -- The size is a product of 64 bits. An array of size 0 leaves the former value, `old`.
  unfoldable pub read_section : (Bytes → A) → ℕ → ℕ → List A → Bytes → Section A
  unfolding decode_many
  read_section dec size count old rest =
      let total = size * count % 2 ^ 64 in
      if ltb (length rest) total
      then short
      else (if total == 0
          then section old rest
          else (if ltb total (size * count)
              then crashed
              else section (decode_many dec size count rest) (drop total rest)))

module _ {A : Type 0} (dec : Bytes → A) (size count : ℕ) (old : List A) (rest : Bytes) where
  pub read_section-empty :
      size * count ≡ 0 → read_section dec size count old rest ≡ section old rest
  unfolding read_section
  read_section-empty h = rw h (ground arith)

  pub read_section-full :
      (m : ℕ)
      → size * count ≡ m
      → m < 2 ^ 64
      → 0 < m
      → m ≤ length rest
      → read_section dec size count old rest
        ≡ section (decode_many dec size count rest) (drop m rest)
  unfolding read_section
  read_section-full m h small pos room = rw h (ground arith)

module _ {A : Type 0} (enc : A → Bytes) (dec : Bytes → A) (size : ℕ) (P : A → Type 0)
    (decode-encode : (x : A) (b : Bytes) → P x → dec (enc x ++ b) ≡ x)
    (length-encode : (x : A) → P x → length (enc x) ≡ size) where
  pub length-encode_all : (xs : List A) → All P xs → length (encode_all enc xs) ≡ size * length xs
  unfolding encode_all
  length-encode_all [] h = omega arith
  length-encode_all (x ∷ xs) h = grind (
    arith,
    length-append (enc x) (encode_all enc xs),
    length-encode x h.0,
    length-encode_all xs h.1,
  )

  decode_many-encode_all :
      (xs : List A) (b : Bytes)
      → All P xs
      → decode_many dec size (length xs) (encode_all enc xs ++ b) ≡ xs
  unfolding encode_all decode_many
  decode_many-encode_all [] b h = refl
  decode_many-encode_all (x ∷ xs) b h =
      rw
        (
          append_assoc (enc x) (encode_all enc xs) b,
          decode-encode x (encode_all enc xs ++ b) h.0,
          drop-append_eq (enc x) size (encode_all enc xs ++ b) (length-encode x h.0),
          decode_many-encode_all xs b h.1,
        )
        refl

  -- An array that was written is read back, and the bytes behind it remain.
  pub read_section-encode_all :
      (xs : List A) (b : Bytes)
      → 0 < size
      → All P xs
      → size * length xs < 2 ^ 64
      → read_section dec size (length xs) [] (encode_all enc xs ++ b) ≡ section xs b
  unfolding encode_all
  read_section-encode_all [] b pos h small = read_section-empty dec size 0 [] b (grind arith)
  read_section-encode_all (x ∷ xs) b pos h small =
      read_section-full dec size (length (x ∷ xs)) [] (encode_all enc (x ∷ xs) ++ b)
        (size * length (x ∷ xs)) refl small (grind arith)
        (omega (arith, length-append (encode_all enc (x ∷ xs)) b, length-encode_all (x ∷ xs) h))
      ∙ rw
          (
            decode_many-encode_all (x ∷ xs) b h,
            drop-append_eq (encode_all enc (x ∷ xs)) (size * length (x ∷ xs)) b
                (length-encode_all (x ∷ xs) h),
          )
          refl
