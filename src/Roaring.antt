-- ===== src/Roaring.antt =====
-- The bitmaps of github.com/RoaringBitmap/roaring, which the program calls and does not hold: sets
-- of document indexes with the operations that the program uses and their documented behaviour.
use textiplex.Prelude.{
  ℕ, ◌<◌, ◌≡◌, ◌≢◌, Bool, false, not, ◌&&◌, ◌||◌, Option, some, List, [], ◌∷◌, ◌==◌, IsChain,
  length,
}
use textiplex.Bytes.{Bytes}
use textiplex.Search.Chain.{any, every}

pub record Roaring : Type 1 where
  pub Bitmap : Type 0
  pub empty : Bitmap
  -- `ToArray`, which is also what a `ManyIterator` walks
  pub to_array : Bitmap → List ℕ
  pub or : Bitmap → Bitmap → Bitmap
  pub and : Bitmap → Bitmap → Bitmap
  pub and_not : Bitmap → Bitmap → Bitmap
  -- `FastAnd`
  pub fast_and : List Bitmap → Bitmap
  -- `GetCardinality` and `IsEmpty`
  pub cardinality : Bitmap → ℕ
  pub is_empty : Bitmap → Bool
  pub add_many : Bitmap → List ℕ → Bitmap
  -- `MarshalBinary` and `WriteTo`
  pub serialize : Bitmap → Bytes
  -- `FromUnsafeBytes`, with `none` for an error
  pub from_unsafe_bytes : Bytes → Option Bitmap

module _ (r : Roaring) where
  abbrev pub contains : r.Bitmap → ℕ → Bool
  contains b x = any (λ y. y == x) (r.to_array b)

-- What the library documents.
pub record IsRoaring (r : Roaring) : Type 0 where
  pub to_array_ascending : (b : r.Bitmap) → IsChain ◌<◌ (r.to_array b)
  pub contains-empty : (x : ℕ) → contains r r.empty x ≡ false
  pub contains-or :
      (a b : r.Bitmap) (x : ℕ) → contains r (r.or a b) x ≡ (contains r a x || contains r b x)
  pub contains-and :
      (a b : r.Bitmap) (x : ℕ) → contains r (r.and a b) x ≡ (contains r a x && contains r b x)
  pub contains-and_not :
      (a b : r.Bitmap) (x : ℕ)
      → contains r (r.and_not a b) x ≡ (contains r a x && not (contains r b x))
  pub contains-fast_and :
      (b : r.Bitmap) (bs : List r.Bitmap) (x : ℕ)
      → contains r (r.fast_and (b ∷ bs)) x ≡ every (λ c. contains r c x) (b ∷ bs)
  pub cardinality_length : (b : r.Bitmap) → r.cardinality b ≡ length (r.to_array b)
  pub is_empty_iff : (b : r.Bitmap) → r.is_empty b ≡ (r.cardinality b == 0)
  pub contains-add_many :
      (b : r.Bitmap) (xs : List ℕ) (x : ℕ)
      → contains r (r.add_many b xs) x ≡ (contains r b x || any (λ y. y == x) xs)
  pub from_unsafe_bytes-serialize : (b : r.Bitmap) → r.from_unsafe_bytes (r.serialize b) ≡ some b
  pub serialize-ne-nil : (b : r.Bitmap) → r.serialize b ≢ []
