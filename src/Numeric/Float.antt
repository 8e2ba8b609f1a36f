-- ===== src/Numeric/Float.antt =====
-- numeric/float64.go: floating-point numbers as the values of tokens.
use textiplex.Prelude.{
  ℕ, ◌+◌, ◌-◌, ◌^◌, ◌<◌, ◌≡◌, sym, ap, ◌∙◌, compare, Ordering, leb, if◌then◌else◌, arith,
}
use textiplex.Bytes.{Bytes, compare_bytes}
use textiplex.Numeric.{put_uint, read_uint, above_lem, compare-put_uint, read_uint-put_uint}

-- `PutSortableFloat` of numeric/float64.go, on the bits of the number: those of a negative one are
-- all flipped.
unfoldable pub put_sortable_float : ℕ → Bytes
put_sortable_float bits =
    put_uint 8 (if leb (2 ^ 63) bits then 2 ^ 64 - 1 - bits else bits + 2 ^ 63)

unfoldable pub decode_float : Bytes → ℕ
decode_float src =
    let bits = read_uint 0 src in if leb (2 ^ 63) bits then bits - 2 ^ 63 else 2 ^ 64 - 1 - bits

-- The order of two numbers by the sign in their highest bit, and by what is below it.
unfoldable pub compare_bits : ℕ → ℕ → Ordering
compare_bits a b =
    if leb (2 ^ 63) a
    then (if leb (2 ^ 63) b then compare b a else Ordering.lt)
    else (if leb (2 ^ 63) b then Ordering.gt else compare a b)

sortable : ℕ → ℕ
sortable bits = if leb (2 ^ 63) bits then 2 ^ 64 - 1 - bits else bits + 2 ^ 63

sortable-lt : (bits : ℕ) → bits < 2 ^ 64 → sortable bits < 2 ^ 64
unfolding sortable
sortable-lt bits h = ground (arith, h)

-- `DecodeFloat` of the bytes that `PutSortableFloat` writes has the bits of the number, for
-- all 64 bits.
pub decode_float-put_sortable_float :
    (bits : ℕ) → bits < 2 ^ 64 → decode_float (put_sortable_float bits) ≡ bits
unfolding decode_float put_sortable_float sortable
decode_float-put_sortable_float bits h =
    ap (λ u. if leb (2 ^ 63) u then u - 2 ^ 63 else 2 ^ 64 - 1 - u)
      (read_uint-put_uint 8 (sortable bits) (above_lem _ (sortable-lt bits h)))
    ∙ restored bits h
  where
    restored :
        (bits : ℕ)
        → bits < 2 ^ 64
        → (if leb (2 ^ 63) (sortable bits)
            then sortable bits - 2 ^ 63
            else 2 ^ 64 - 1 - sortable bits)
          ≡ bits
    restored bits h = ground (arith, h)

compare-sortable :
    (a b : ℕ) → a < 2 ^ 64 → b < 2 ^ 64 → compare (sortable a) (sortable b) ≡ compare_bits a b
unfolding sortable compare_bits
compare-sortable a b h k = ground (arith, h, k)

-- The bytes that `PutSortableFloat` writes for two numbers of 64 bits are in the order of the
-- signs, within a sign that of the lower bits, and for negative numbers the opposite of it.
pub compare_bytes-put_sortable_float :
    (a b : ℕ)
    → a < 2 ^ 64
    → b < 2 ^ 64
    → compare_bytes (put_sortable_float a) (put_sortable_float b) ≡ compare_bits a b
unfolding put_sortable_float sortable
compare_bytes-put_sortable_float a b h k =
    compare-put_uint 8 (sortable a) (sortable b)
      (above_lem _ (sortable-lt a h) ∙ sym (above_lem _ (sortable-lt b k)))
    ∙ compare-sortable a b h k
