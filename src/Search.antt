-- ===== src/Search.antt =====
-- The binary search that the sources write out five times over, here once over the comparison that
-- it makes: `TokenFrequencies.BinarySearch` and `DocumentsLengths.BinarySearch` of
-- storage/headers.go, `Tokens.BinarySearchBytes` and `BinarySearchString` of storage/storage.go,
-- and the searches of `Scoring` in query/clause.go.
pub mod Partition
pub mod Chain
use textiplex.Prelude.{
  ℕ, zero, suc, ◌+◌, ◌-◌, ◌/◌, ◌≡◌, refl, Bool, true, false, Option, none, some, List, ltb, length,
  get_elem?, if◌then◌else◌, ◌>>=◌,
}

-- `i < n && cmp(s[i], target) == 0`
abbrev pub found_at {ℓ} : {A : Type ℓ} → (A → Bool) → List A → ℕ → Bool
found_at equal s i = elim (get_elem? s i) [ none ↦ false | some x ↦ equal x ]

module _ {A : Type 0} (less : A → Bool) where
  -- The loop `for i < j`, with fuel for its rounds. `less x` is `cmp(x, target) < 0`.
  unfoldable pub search_loop : ℕ → List A → ℕ → ℕ → Option ℕ
  search_loop zero s i j = none
  search_loop (suc f) s i j = elim (ltb i j) [
    | false ↦ some i
    | true ↦
        (let h = (i + j) / 2 in
          elim (get_elem? s h) [
            | none ↦ none
            | some x ↦ elim (less x) [
              | true ↦ search_loop f s (h + 1) j
              | false ↦ search_loop f s i h
            ]
          ])
  ]

  -- The index at which the loop ends on the whole slice.
  unfoldable pub search : List A → Option ℕ
  unfolding search_loop
  search s = search_loop (suc (length s)) s 0 (length s)

  unfoldable pub binary_search : (A → Bool) → List A → Option (ℕ × Bool)
  unfolding search
  binary_search equal s = search s >>= λ i. some (i, found_at equal s i)
