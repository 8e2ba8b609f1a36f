-- ===== src/Examples/Bits.antt =====
-- Bitmaps as lists of bits, which behave as the library documents.
use textiplex.Prelude.{
  ℕ, zero, suc, ◌+◌, ◌<◌, ◌≡◌, refl, ap, Bool, true, false, not, ◌&&◌, ◌||◌, Option, some, none,
  List, [], ◌∷◌, ◌==◌, length, map, All, IsChain, arith,
}
use textiplex.Bytes.{Bytes}
use textiplex.Roaring.{Roaring, IsRoaring}
use textiplex.Search.Chain.{any, every}

abbrev pub Bits : Type 0
Bits = List Bool

abbrev positions : ℕ → Bits → List ℕ
positions n [] = []
positions n (true ∷ b) = n ∷ positions (n + 1) b
positions n (false ∷ b) = positions (n + 1) b

abbrev or_bits : Bits → Bits → Bits
or_bits [] c = c
or_bits (x ∷ b) [] = x ∷ b
or_bits (x ∷ b) (y ∷ c) = (x || y) ∷ or_bits b c

abbrev and_bits : Bits → Bits → Bits
and_bits [] c = []
and_bits (x ∷ b) [] = []
and_bits (x ∷ b) (y ∷ c) = (x && y) ∷ and_bits b c

abbrev and_not_bits : Bits → Bits → Bits
and_not_bits [] c = []
and_not_bits (x ∷ b) [] = x ∷ b
and_not_bits (x ∷ b) (y ∷ c) = (x && not y) ∷ and_not_bits b c

abbrev insert_bit : ℕ → Bits → Bits
insert_bit zero [] = true ∷ []
insert_bit zero (x ∷ b) = true ∷ b
insert_bit (suc k) [] = false ∷ insert_bit k []
insert_bit (suc k) (x ∷ b) = x ∷ insert_bit k b

abbrev insert_bits : Bits → List ℕ → Bits
insert_bits b [] = b
insert_bits b (k ∷ ks) = insert_bits (insert_bit k b) ks

abbrev and_all : List Bits → Bits
and_all [] = []
and_all (b ∷ []) = b
and_all (b ∷ c ∷ bs) = and_bits b (and_all (c ∷ bs))

abbrev bit_byte : Bool → ℕ
bit_byte true = 1
bit_byte false = 0

abbrev read_bits : Bytes → Option Bits
read_bits [] = none
read_bits (n ∷ bs) = some (map (λ v. v == 1) bs)

abbrev pub bits : Roaring
bits = record {
  Bitmap = Bits;
  empty = [];
  to_array = positions 0;
  or = or_bits;
  and = and_bits;
  and_not = and_not_bits;
  fast_and = and_all;
  cardinality = λ b. length (positions 0 b);
  is_empty = λ b. length (positions 0 b) == 0;
  add_many = insert_bits;
  serialize = λ b. 7 ∷ map bit_byte b;
  from_unsafe_bytes = read_bits;
}

abbrev has : ℕ → Bits → ℕ → Bool
has n b x = any (λ y. y == x) (positions n b)

has_below : (n : ℕ) (b : Bits) (x : ℕ) → x < n → has n b x ≡ false
has_below n [] x h = refl
has_below n (true ∷ b) x h = ground (arith, has_below (n + 1) b x)
has_below n (false ∷ b) x h = ground (arith, has_below (n + 1) b x)

has-or : (n : ℕ) (b c : Bits) (x : ℕ) → has n (or_bits b c) x ≡ (has n b x || has n c x)
has-or n [] c x = refl
has-or n (y ∷ b) [] x = ground arith
has-or n (true ∷ b) (true ∷ c) x = ground (arith, has-or (n + 1) b c x)
has-or n (true ∷ b) (false ∷ c) x = ground (arith, has-or (n + 1) b c x)
has-or n (false ∷ b) (true ∷ c) x = ground (arith, has-or (n + 1) b c x)
has-or n (false ∷ b) (false ∷ c) x = has-or (n + 1) b c x

has-and : (n : ℕ) (b c : Bits) (x : ℕ) → has n (and_bits b c) x ≡ (has n b x && has n c x)
has-and n [] c x = refl
has-and n (y ∷ b) [] x = ground arith
has-and n (true ∷ b) (true ∷ c) x = ground (arith, has-and (n + 1) b c x)
has-and n (true ∷ b) (false ∷ c) x = ground (arith, has-and (n + 1) b c x, has_below (n + 1) c x)
has-and n (false ∷ b) (true ∷ c) x = ground (arith, has-and (n + 1) b c x, has_below (n + 1) b x)
has-and n (false ∷ b) (false ∷ c) x = has-and (n + 1) b c x

has-and_not :
    (n : ℕ) (b c : Bits) (x : ℕ) → has n (and_not_bits b c) x ≡ (has n b x && not (has n c x))
has-and_not n [] c x = refl
has-and_not n (y ∷ b) [] x = ground arith
has-and_not n (true ∷ b) (true ∷ c) x =
    ground (arith, has-and_not (n + 1) b c x, has_below (n + 1) b x)
has-and_not n (true ∷ b) (false ∷ c) x =
    ground (arith, has-and_not (n + 1) b c x, has_below (n + 1) c x)
has-and_not n (false ∷ b) (true ∷ c) x =
    ground (arith, has-and_not (n + 1) b c x, has_below (n + 1) b x)
has-and_not n (false ∷ b) (false ∷ c) x = has-and_not (n + 1) b c x

has-insert : (n k : ℕ) (b : Bits) (x : ℕ) → has n (insert_bit k b) x ≡ (has n b x || (n + k == x))
has-insert n zero [] x = ground arith
has-insert n zero (true ∷ b) x = ground arith
has-insert n zero (false ∷ b) x = ground arith
has-insert n (suc k) [] x = ground (arith, has-insert (n + 1) k [] x)
has-insert n (suc k) (true ∷ b) x = ground (arith, has-insert (n + 1) k b x)
has-insert n (suc k) (false ∷ b) x = ground (arith, has-insert (n + 1) k b x)

has-insert_bits :
    (b : Bits) (ks : List ℕ) (x : ℕ)
    → has 0 (insert_bits b ks) x ≡ (has 0 b x || any (λ y. y == x) ks)
has-insert_bits b [] x = ground arith
has-insert_bits b (k ∷ ks) x =
    ground (arith, has-insert_bits (insert_bit k b) ks x, has-insert 0 k b x)

has-and_all :
    (b : Bits) (bs : List Bits) (x : ℕ)
    → has 0 (and_all (b ∷ bs)) x ≡ every (λ c. has 0 c x) (b ∷ bs)
has-and_all b [] x = ground arith
has-and_all b (c ∷ bs) x = ground (arith, has-and_all c bs x, has-and 0 b (and_all (c ∷ bs)) x)

positions_above : (m n : ℕ) (b : Bits) → m < n → All (λ y. m < y) (positions n b)
positions_above m n [] h = tt
positions_above m n (true ∷ b) h = (h, positions_above m (n + 1) b (omega arith))
positions_above m n (false ∷ b) h = positions_above m (n + 1) b (omega arith)

positions-IsChain : (n : ℕ) (b : Bits) → IsChain ◌<◌ (positions n b)
positions-IsChain n [] = tt
positions-IsChain n (true ∷ b) =
    (positions_above n (n + 1) b (omega arith), positions-IsChain (n + 1) b)
positions-IsChain n (false ∷ b) = positions-IsChain (n + 1) b

read_back : (b : Bits) → map (λ v. v == 1) (map bit_byte b) ≡ b
read_back [] = refl
read_back (true ∷ b) = ap (λ l. true ∷ l) (read_back b)
read_back (false ∷ b) = ap (λ l. false ∷ l) (read_back b)

pub bits-IsRoaring : IsRoaring bits
bits-IsRoaring = record {
  to_array_ascending = positions-IsChain 0;
  contains-empty = λ x. refl;
  contains-or = has-or 0;
  contains-and = has-and 0;
  contains-and_not = has-and_not 0;
  contains-fast_and = has-and_all;
  cardinality_length = λ b. refl;
  is_empty_iff = λ b. refl;
  contains-add_many = has-insert_bits;
  from_unsafe_bytes-serialize = λ b. ap some (read_back b);
  serialize-ne-nil = λ b h. absurd (omega (arith, ap length h));
}
