-- ===== src/Examples/Little.antt =====
-- Integers with the lowest byte first: an `Endian` that keeps its laws.
use textiplex.Prelude.{
  ℕ, zero, suc, ◌+◌, ◌*◌, ◌/◌, ◌%◌, ◌^◌, ◌<◌, ◌≡◌, refl, ap, [], ◌∷◌, length, arith,
}
use native.Mathlib.Numerals.{unary_clauses}
use textiplex.Bytes.{Bytes}
use textiplex.Storage.File.Endian.{Endian, IsEndian}

abbrev put_little : ℕ → ℕ → Bytes
put_little zero v = []
put_little (suc w) v = v % 256 ∷ put_little w (v / 256)

abbrev get_little : Bytes → ℕ
get_little [] = 0
get_little (b ∷ bs) = b + 256 * get_little bs

abbrev pub little : Endian
little = record { put = put_little; get = get_little }

length-put_little : (w v : ℕ) → length (put_little w v) ≡ w
length-put_little zero v = refl
length-put_little (suc w) v = ap suc (length-put_little w (v / 256))

get_little-put_little : (w v : ℕ) → v < 256 ^ w → get_little (put_little w v) ≡ v
get_little-put_little zero v h = omega arith
get_little-put_little (suc w) v h =
    rw (get_little-put_little w (v / 256) (quotient (256 ^ w) v (simp unary_clauses at h)))
      (div_mod v)
  where
    quotient : (p v : ℕ) → v < p * 256 → v / 256 < p
    quotient p v h = omega arith

    div_mod : (v : ℕ) → v % 256 + 256 * (v / 256) ≡ v
    div_mod v = omega arith

pub little-IsEndian : IsEndian little
little-IsEndian = (length-put_little, get_little-put_little)
