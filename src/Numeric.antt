-- ===== src/Numeric.antt =====
-- numeric/int64.go: integers as the values of tokens, whose bytes can be compared.
pub mod Float
use textiplex.Prelude.{
  ℕ, zero, suc, ◌+◌, ◌-◌, ◌*◌, ◌/◌, ◌%◌, ◌^◌, ◌<◌, ◌≡◌, refl, sym, ap, ◌∙◌, false, [], ◌∷◌, ◌++◌,
  compare, Ordering, length, length-append, ltb, leb, lt→ltb, if◌then◌else◌, arith,
}
use textiplex.Prelude.Int.{ℤ, pos, negsuc}
use textiplex.Bytes.{Bytes, compare_bytes}

-- `uint64` of an `int64`.
unfoldable pub uint64 : ℤ → ℕ
uint64 (pos n) = n % 2 ^ 64
uint64 (negsuc n) = 2 ^ 64 - 1 - n

-- `int64` of a `uint64`.
unfoldable pub int64 : ℕ → ℤ
int64 u = if ltb u (2 ^ 63) then pos u else negsuc (2 ^ 64 - 1 - u)

-- `u ^ (1<<63)`, which adds the highest bit without a carry.
abbrev pub flip_sign : ℕ → ℕ
flip_sign u = (u + 2 ^ 63) % 2 ^ 64

-- The first `k` bytes of `binary.BigEndian.PutUint64`.
unfoldable pub put_uint : ℕ → ℕ → Bytes
put_uint zero u = []
put_uint (suc k) u = put_uint k (u / 256) ++ u % 256 ∷ []

-- `binary.BigEndian.Uint64`
unfoldable pub read_uint : ℕ → Bytes → ℕ
read_uint acc [] = acc
read_uint acc (b ∷ bs) = read_uint (acc * 256 + b) bs

unfoldable pub put_sortable_integer : ℤ → Bytes
put_sortable_integer v = put_uint 8 (flip_sign (uint64 v))

unfoldable pub decode_integer : Bytes → ℤ
decode_integer src = int64 (flip_sign (read_uint 0 src))

abbrev pub IsInt64 : ℤ → Type 0
IsInt64 (pos n) = n < 2 ^ 63
IsInt64 (negsuc n) = n < 2 ^ 63

-- The order of the integers.
unfoldable pub compare_int : ℤ → ℤ → Ordering
compare_int (pos m) (pos n) = compare m n
compare_int (pos m) (negsuc n) = Ordering.gt
compare_int (negsuc m) (pos n) = Ordering.lt
compare_int (negsuc m) (negsuc n) = compare n m

-- What is left of a number above its last `k` bytes.
pub above : ℕ → ℕ → ℕ
above zero u = u
above (suc k) u = above k (u / 256)

length-put_uint : (k u : ℕ) → length (put_uint k u) ≡ k
unfolding put_uint
length-put_uint zero u = refl
length-put_uint (suc k) u =
    omega (arith, length-append (put_uint k (u / 256)) (u % 256 ∷ []), length-put_uint k (u / 256))

compare_snoc :
    (xs ys : Bytes) (a b : ℕ)
    → length xs ≡ length ys
    → compare_bytes (xs ++ a ∷ []) (ys ++ b ∷ []) ≡ (elim (compare_bytes xs ys) [
      | Ordering.lt ↦ Ordering.lt
      | Ordering.eq ↦ compare a b
      | Ordering.gt ↦ Ordering.gt
    ])
unfolding compare_bytes
compare_snoc [] [] a b h = ground arith
compare_snoc [] (y ∷ ys) a b h = absurd (omega (arith, h))
compare_snoc (x ∷ xs) [] a b h = absurd (omega (arith, h))
compare_snoc (x ∷ xs) (y ∷ ys) a b h = ground (arith, compare_snoc xs ys a b (omega (arith, h)))

pub compare-put_uint :
    (k u v : ℕ) → above k u ≡ above k v → compare_bytes (put_uint k u) (put_uint k v) ≡ compare u v
unfolding put_uint above compare_bytes
compare-put_uint zero u v h = ground (arith, h)
compare-put_uint (suc k) u v h =
    let same = length-put_uint k (u / 256) ∙ sym (length-put_uint k (v / 256)) in
    rw
      (
        compare_snoc (put_uint k (u / 256)) (put_uint k (v / 256)) (u % 256) (v % 256) same,
        compare-put_uint k (u / 256) (v / 256) h,
      )
      (split u v)
  where
    split :
        (u v : ℕ)
        → (elim (compare (u / 256) (v / 256)) [
          | Ordering.lt ↦ Ordering.lt
          | Ordering.eq ↦ compare (u % 256) (v % 256)
          | Ordering.gt ↦ Ordering.gt
        ])
          ≡ compare u v
    split u v = ground arith

read_uint-snoc :
    (acc : ℕ) (xs : Bytes) (a : ℕ) → read_uint acc (xs ++ a ∷ []) ≡ read_uint acc xs * 256 + a
unfolding read_uint
read_uint-snoc acc [] a = refl
read_uint-snoc acc (x ∷ xs) a = read_uint-snoc (acc * 256 + x) xs a

pub read_uint-put_uint : (k u : ℕ) → above k u ≡ 0 → read_uint 0 (put_uint k u) ≡ u
unfolding put_uint read_uint above
read_uint-put_uint zero u h = sym h
read_uint-put_uint (suc k) u h =
    omega
      (arith, read_uint-snoc 0 (put_uint k (u / 256)) (u % 256), read_uint-put_uint k (u / 256) h)

pub above_lem : (u : ℕ) → u < 2 ^ 64 → above 8 u ≡ 0
unfolding above
above_lem u h = omega (arith, h)

flip_sign_twice : (u : ℕ) → u < 2 ^ 64 → flip_sign (flip_sign u) ≡ u
flip_sign_twice u h = omega (arith, h)

uint64-lt : (v : ℤ) → uint64 v < 2 ^ 64
unfolding uint64
uint64-lt (pos n) = omega arith
uint64-lt (negsuc n) = omega arith

int64-uint64 : (v : ℤ) → IsInt64 v → int64 (uint64 v) ≡ v
unfolding int64 uint64
int64-uint64 (pos n) h =
    let same : n % 2 ^ 64 ≡ n = omega (arith, h) in rw (same, lt→ltb n (2 ^ 63) h) refl
int64-uint64 (negsuc n) h =
    let high : ltb (2 ^ 64 - 1 - n) (2 ^ 63) ≡ false = ground (arith, h) in
    let same : 2 ^ 64 - 1 - (2 ^ 64 - 1 - n) ≡ n = omega (arith, h) in rw high (ap negsuc same)

-- `DecodeInteger` of the bytes that `PutSortableInteger` writes is the integer, for every
-- integer of 64 bits.
pub decode_integer-put_sortable_integer :
    (v : ℤ) → IsInt64 v → decode_integer (put_sortable_integer v) ≡ v
unfolding decode_integer put_sortable_integer
decode_integer-put_sortable_integer v h =
    ap (λ u. int64 (flip_sign u))
      (read_uint-put_uint 8 (flip_sign (uint64 v)) (above_lem _ (omega arith)))
    ∙ ap int64 (flip_sign_twice (uint64 v) (uint64-lt v))
    ∙ int64-uint64 v h

ordered :
    (a b : ℤ)
    → IsInt64 a
    → IsInt64 b
    → compare (flip_sign (uint64 a)) (flip_sign (uint64 b)) ≡ compare_int a b
unfolding uint64 compare_int
ordered (pos m) (pos n) h k = ground (arith, h, k)
ordered (pos m) (negsuc n) h k = ground (arith, h, k)
ordered (negsuc m) (pos n) h k = ground (arith, h, k)
ordered (negsuc m) (negsuc n) h k = ground (arith, h, k)

-- The bytes that `PutSortableInteger` writes for two integers of 64 bits are in the order of
-- the integers, negative ones included.
pub compare_bytes-put_sortable_integer :
    (a b : ℤ)
    → IsInt64 a
    → IsInt64 b
    → compare_bytes (put_sortable_integer a) (put_sortable_integer b) ≡ compare_int a b
unfolding put_sortable_integer
compare_bytes-put_sortable_integer a b h k =
    compare-put_uint 8 (flip_sign (uint64 a)) (flip_sign (uint64 b))
      (above_lem _ (omega arith) ∙ sym (above_lem _ (omega arith)))
    ∙ ordered a b h k
