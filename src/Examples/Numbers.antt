-- ===== src/Examples/Numbers.antt =====
-- Numbers as the values of tokens.
use textiplex.Prelude.{◌+◌, ◌^◌, ◌≡◌, refl, [], ◌∷◌, arith}
use textiplex.Prelude.Int.{pos, negsuc}
use textiplex.Bytes.{compare_bytes}
use textiplex.Numeric.{
  put_uint, uint64, put_sortable_integer, decode_integer, compare_int,
  decode_integer-put_sortable_integer, compare_bytes-put_sortable_integer,
}
use textiplex.Numeric.Float.{
  put_sortable_float, decode_float, compare_bits, decode_float-put_sortable_float,
  compare_bytes-put_sortable_float,
}

decode_integer_example : decode_integer (put_sortable_integer (negsuc 4)) ≡ negsuc 4
decode_integer_example = decode_integer-put_sortable_integer (negsuc 4) (omega arith)

compare_int_example :
    compare_bytes (put_sortable_integer (negsuc 4)) (put_sortable_integer (pos 300))
    ≡ compare_int (negsuc 4) (pos 300)
compare_int_example =
    compare_bytes-put_sortable_integer (negsuc 4) (pos 300) (omega arith) (omega arith)

minus_five : put_sortable_integer (negsuc 4) ≡ 127 ∷ 255 ∷ 255 ∷ 255 ∷ 255 ∷ 255 ∷ 255 ∷ 251 ∷ []
unfolding put_sortable_integer put_uint uint64
minus_five = refl

decode_float_example : decode_float (put_sortable_float (2 ^ 63 + 5)) ≡ 2 ^ 63 + 5
decode_float_example = decode_float-put_sortable_float (2 ^ 63 + 5) (omega arith)

compare_bits_example :
    compare_bytes (put_sortable_float (2 ^ 63 + 5)) (put_sortable_float 3)
    ≡ compare_bits (2 ^ 63 + 5) 3
compare_bits_example = compare_bytes-put_sortable_float (2 ^ 63 + 5) 3 (omega arith) (omega arith)
