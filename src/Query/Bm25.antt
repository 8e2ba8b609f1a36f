-- ===== src/Query/Bm25.antt =====
-- query/bm25.go and fastlog/: the weight of a term. The arithmetic of `float32` is the processor's:
-- the model takes it as a parameter, over bit patterns.
pub mod Tables
pub mod Accumulate
pub mod Reads
pub mod Dense
pub mod Reference
pub mod Raised
use textiplex.Prelude.{ℕ, ◌+◌, ◌-◌, ◌/◌, ◌%◌, ◌^◌, Bool, ltb, ◌==◌, ◌||◌, if◌then◌else◌}
use textiplex.Prelude.Int.{ℤ, pos, negsuc}
use textiplex.Storage.Headers.{Float32}

pub record Floats : Type 0 where
  pub add : Float32 → Float32 → Float32
  pub sub : Float32 → Float32 → Float32
  pub mul : Float32 → Float32 → Float32
  pub div : Float32 → Float32 → Float32
  -- `==`, which holds of both zeros
  pub equal : Float32 → Float32 → Bool
  -- The conversions `float32(n)` of unsigned and signed integers
  pub of_uint : ℕ → Float32
  pub of_int : ℤ → Float32

-- The constants of the source, as the compiler rounds them.
abbrev pub one : Float32
one = 0x3F800000

abbrev half : Float32
half = 0x3F000000

-- `int32(ex) - 127`
abbrev exponent : ℕ → ℤ
exponent ex = if ltb ex 127 then negsuc (126 - ex) else pos (ex - 127)

module _ (fl : Floats) where
  -- `fastlog.Ln`. The mantissa's bits stay, and the exponent becomes that of 1.
  unfoldable pub ln : Float32 → Float32
  ln x =
      let t = fl.of_int (exponent (x / 2 ^ 23)) in
      let m = 1065353216 + x % 2 ^ 23 in
      fl.add
        (fl.add 0xBFBF136A
          (fl.mul (fl.add 0x40073554 (fl.mul (fl.add 0xBF3AA68F (fl.mul 0x3DE0A527 m)) m)) m))
        (fl.mul 0x3F317218 t)

  unfoldable pub inverse_document_frequency : ℕ → ℕ → Float32
  unfolding ln
  inverse_document_frequency doc_count token_doc_freq =
      if ltb doc_count token_doc_freq || (doc_count == 0)
      then 0
      else ln (
          fl.add one (
            fl.div (fl.add (fl.of_uint (doc_count - token_doc_freq)) half)
              (fl.add (fl.of_uint token_doc_freq) half)))
