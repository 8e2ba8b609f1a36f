-- ===== src/Levenshtein/Distance.antt =====
-- The edit distance of two byte strings: the fewest insertions, removals and replacements.
use textiplex.Prelude.{
  ℕ, suc, ◌+◌, ◌≤◌, ◌≡◌, refl, [], ◌∷◌, length, ◌==◌, if◌then◌else◌, min, arith,
}
use textiplex.Bytes.{Bytes}

unfoldable pub dist : Bytes → Bytes → ℕ
dist [] b = length b
dist (x ∷ a) [] = suc (length a)
dist (x ∷ a) (y ∷ b) =
    min (dist a b + (if x == y then 0 else 1)) (min (dist a (y ∷ b) + 1) (dist (x ∷ a) b + 1))

pub dist-nil : (a : Bytes) → dist a [] ≡ length a
unfolding dist
dist-nil [] = refl
dist-nil (x ∷ a) = refl

pub dist-cons_left : (c : ℕ) (a b : Bytes) → dist (c ∷ a) b ≤ dist a b + 1
unfolding dist
dist-cons_left c [] [] = omega arith
dist-cons_left c (x ∷ a) [] = omega arith
dist-cons_left c a (y ∷ b) = omega arith

pub dist-cons_right : (c : ℕ) (a b : Bytes) → dist a (c ∷ b) ≤ dist a b + 1
unfolding dist
dist-cons_right c [] b = omega arith
dist-cons_right c (x ∷ a) b = omega arith

pub dist_step :
    (x y : ℕ) (a b : Bytes)
    → dist (x ∷ a) (y ∷ b)
      ≡ min (dist a b + (if x == y then 0 else 1)) (min (dist a (y ∷ b) + 1) (dist (x ∷ a) b + 1))
unfolding dist
dist_step x y a b = refl
