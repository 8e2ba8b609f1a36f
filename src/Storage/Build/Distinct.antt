-- ===== src/Storage/Build/Distinct.antt =====
-- Why the bitmap of a token in `BuildFrom` has no more documents than the token has entries.
use textiplex.Prelude.{
  ℕ, ◌≤◌, ◌<◌, ◌≡◌, Bool, true, List, [], ◌∷◌, ◌==◌, length, All, All-map, IsChain, Bool-cases, inl,
  inr, if◌then◌else◌, arith,
}
use textiplex.Search.Chain.{any}

abbrev pub has : List ℕ → ℕ → Bool
has xs x = any (λ y. y == x) xs

without : ℕ → List ℕ → List ℕ
without x [] = []
without x (y ∷ ys) = if y == x then without x ys else y ∷ without x ys

without-le : (x : ℕ) (xs : List ℕ) → length (without x xs) ≤ length xs
unfolding without
without-le x [] = omega arith
without-le x (y ∷ ys) = ground (arith, without-le x ys)

without-lt : (x : ℕ) (xs : List ℕ) → has xs x ≡ true → length (without x xs) < length xs
unfolding without
without-lt x [] h = ground arith
without-lt x (y ∷ ys) h = elim (Bool-cases (y == x)) [
  | inl same ↦ ground (arith, without-le x ys)
  | inr other ↦ ground (arith, without-lt x ys)
]

has-without : (x z : ℕ) (xs : List ℕ) → x < z → has xs z ≡ true → has (without x xs) z ≡ true
unfolding without
has-without x z [] l h = ground arith
has-without x z (y ∷ ys) l h = elim (Bool-cases (y == x)) [
  | inl same ↦ ground (arith, has-without x z ys l)
  | inr other ↦ ground (arith, has-without x z ys l)
]

-- Distinct numbers of a list are no more than the list has.
pub ascending-le :
    (ys xs : List ℕ) → IsChain ◌<◌ ys → All (λ y. has xs y ≡ true) ys → length ys ≤ length xs
ascending-le [] xs c h = omega arith
ascending-le (y ∷ ys) xs c h =
    omega (arith, without-lt y xs h.0, ascending-le ys (without y xs) c.1 (still ys c.0 h.1))
  where
    still :
        (zs : List ℕ)
        → All (λ z. y < z) zs
        → All (λ z. has xs z ≡ true) zs
        → All (λ z. has (without y xs) z ≡ true) zs
    still [] l k = tt
    still (z ∷ zs) l k = (has-without y z xs l.0 k.0, still zs l.1 k.1)

pub all_has : (ys : List ℕ) → All (λ y. has ys y ≡ true) ys
all_has [] = tt
all_has (y ∷ ys) = (ground arith, All-map ys (λ z h. ground (arith, h)) (all_has ys))
