-- ===== src/Search/Partition.antt =====
-- On a slice that the comparison splits in two, the search ends at the split.
use textiplex.Prelude.{
  ℕ, zero, suc, ◌+◌, ◌-◌, ◌/◌, ◌≤◌, ◌<◌, ◌≡◌, inl, inr, Bool, some, List, [], ◌∷◌, ltb, length,
  get_elem?, get_elem?_total, Bool-cases, if◌then◌else◌, arith,
}
use textiplex.Search.{search_loop, search}

module _ {A : Type 0} (less : A → Bool) where
  -- How many elements at the front compare less.
  abbrev pub rank : List A → ℕ
  rank [] = 0
  rank (x ∷ xs) = if less x then suc (rank xs) else 0

  -- Once an element does not compare less, no later one does.
  abbrev pub IsSplit : List A → Type 0
  IsSplit s = (i : ℕ) (x : A) → get_elem? s i ≡ some x → less x ≡ ltb i (rank s)

  pub rank-le : (s : List A) → rank s ≤ length s
  rank-le [] = omega arith
  rank-le (x ∷ s) = ground (arith, rank-le s)

  search_loop-eq-rank :
      (f : ℕ) (s : List A) (i j : ℕ)
      → IsSplit s
      → i ≤ rank s
      → rank s ≤ j
      → j ≤ length s
      → j - i < f
      → search_loop less f s i j ≡ some (rank s)
  unfolding search_loop
  search_loop-eq-rank zero s i j split lo hi fits fuel = absurd (omega arith)
  search_loop-eq-rank (suc f) s i j split lo hi fits fuel = elim (Bool-cases (ltb i j)) [
    | inr done ↦ ground arith
    | inl more ↦
        (let (x, read) = get_elem?_total s ((i + j) / 2) (ground arith) in
          ground (
            arith,
            split ((i + j) / 2) x read,
            search_loop-eq-rank f s ((i + j) / 2 + 1) j split,
            search_loop-eq-rank f s i ((i + j) / 2) split,
          ))
  ]

  -- The fuel is enough, no read is out of range, and the index is the number of smaller elements.
  pub search-eq-rank : (s : List A) → IsSplit s → search less s ≡ some (rank s)
  unfolding search
  search-eq-rank s split =
      search_loop-eq-rank (suc (length s)) s 0 (length s) split (omega arith) (rank-le s)
        (omega arith) (omega arith)
