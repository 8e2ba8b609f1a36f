-- ===== src/Bytes.antt =====
-- Byte strings and `bytes.Compare` of Go's standard library, by which every table of tokens is
-- sorted.
use textiplex.Prelude.{
  ℕ, ◌≡◌, refl, sym, subst, Bool, true, false, List, [], ◌∷◌, compare, Ordering, arith,
}

abbrev pub Bytes : Type 0
Bytes = List ℕ

unfoldable pub compare_bytes : Bytes → Bytes → Ordering
compare_bytes [] [] = Ordering.eq
compare_bytes [] (y ∷ ys) = Ordering.lt
compare_bytes (x ∷ xs) [] = Ordering.gt
compare_bytes (x ∷ xs) (y ∷ ys) = elim (compare x y) [
  | Ordering.lt ↦ Ordering.lt
  | Ordering.eq ↦ compare_bytes xs ys
  | Ordering.gt ↦ Ordering.gt
]

abbrev pub is_lt : Ordering → Bool
is_lt Ordering.lt = true
is_lt _ = false

abbrev pub is_eq : Ordering → Bool
is_eq Ordering.eq = true
is_eq _ = false

-- `a` sorts strictly before `b`.
infix 50 ◌≺◌
abbrev pub ◌≺◌ : Bytes → Bytes → Type 0
a ≺ b = compare_bytes a b ≡ Ordering.lt

pub compare_bytes_self : (a : Bytes) → compare_bytes a a ≡ Ordering.eq
unfolding compare_bytes
compare_bytes_self [] = refl
compare_bytes_self (x ∷ a) = ground (arith, compare_bytes_self a)

pub compare_bytes-eq : (a b : Bytes) → compare_bytes a b ≡ Ordering.eq → a ≡ b
unfolding compare_bytes
compare_bytes-eq [] [] h = refl
compare_bytes-eq [] (y ∷ b) h = ground arith
compare_bytes-eq (x ∷ a) [] h = ground arith
compare_bytes-eq (x ∷ a) (y ∷ b) h = ground (arith, compare_bytes-eq a b)

pub ≺_trans : (a b c : Bytes) → a ≺ b → b ≺ c → a ≺ c
unfolding compare_bytes
≺_trans [] [] c p q = ground arith
≺_trans [] (y ∷ b) [] p q = ground arith
≺_trans [] (y ∷ b) (z ∷ c) p q = refl
≺_trans (x ∷ a) [] c p q = ground arith
≺_trans (x ∷ a) (y ∷ b) [] p q = ground arith
≺_trans (x ∷ a) (y ∷ b) (z ∷ c) p q = ground (arith, ≺_trans a b c)

pub compare_bytes-gt : (a b : Bytes) → compare_bytes a b ≡ Ordering.gt → b ≺ a
unfolding compare_bytes
compare_bytes-gt [] [] h = ground arith
compare_bytes-gt [] (y ∷ b) h = ground arith
compare_bytes-gt (x ∷ a) [] h = refl
compare_bytes-gt (x ∷ a) (y ∷ b) h = ground (arith, compare_bytes-gt a b)

pub compare_bytes-lt : (a b : Bytes) → a ≺ b → compare_bytes b a ≡ Ordering.gt
unfolding compare_bytes
compare_bytes-lt [] [] h = ground arith
compare_bytes-lt [] (y ∷ b) h = refl
compare_bytes-lt (x ∷ a) [] h = ground arith
compare_bytes-lt (x ∷ a) (y ∷ b) h = ground (arith, compare_bytes-lt a b)

pub not-≺-self : (a : Bytes) → ¬ (a ≺ a)
not-≺-self a h = ground (arith, compare_bytes_self a)

pub not-≺-nil : (a : Bytes) → ¬ (a ≺ [])
unfolding compare_bytes
not-≺-nil [] h = ground arith
not-≺-nil (x ∷ a) h = ground arith

-- A value at or above `b` and `b` above `a`: the value is above `a`.
pub ≺_of_not : (a b c : Bytes) → a ≺ b → ¬ (c ≺ b) → a ≺ c
≺_of_not a b c p h = go (compare_bytes c b) refl
  where
    go : (o : Ordering) → compare_bytes c b ≡ o → a ≺ c
    go Ordering.lt e = absurd (h e)
    go Ordering.eq e = subst (λ d. a ≺ d) (sym (compare_bytes-eq c b e)) p
    go Ordering.gt e = ≺_trans a b c p (compare_bytes-gt c b e)
