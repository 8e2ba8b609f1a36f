-- ===== src/Query/Bm25/Tables.antt =====
-- How query/bm5_acc_scalar.go reads the frequencies of a token and the lengths of the documents: by
-- the document's index where the table has every document, and by binary search where not.
use textiplex.Prelude.{
  ℕ, ◌+◌, Bool, true, false, Option, some, List, [], ◌∷◌, ltb, get_elem?, take, drop, ◌>>=◌,
}
use textiplex.Search.{search}

abbrev pub last_of : List ℕ → ℕ
last_of [] = 0
last_of (i ∷ []) = i
last_of (i ∷ j ∷ is) = last_of (j ∷ is)

module _ {A : Type 0} (key value : A → ℕ) where
  -- `i, _ := table.BinarySearch(docIdx)`
  unfoldable pub position : List A → ℕ → Option ℕ
  position table d = search (λ x. ltb (key x) d) table

  unfoldable pub value_at : List A → ℕ → Option ℕ
  value_at table i = get_elem? table i >>= λ x. some (value x)

  unfoldable pub values_at : List A → List ℕ → Option (List ℕ)
  values_at table [] = some []
  values_at table (i ∷ is) = value_at table i >>= λ v. values_at table is >>= λ vs. some (v ∷ vs)

  -- The positions of a group, from the last document to the first. Each search is in the part of
  -- the table before the position that was found last, `table[:idx]`.
  unfoldable pub positions : List A → List ℕ → Option (List ℕ × List A)
  positions table [] = some ([], table)
  positions table (d ∷ ds) =
      positions table ds >>= λ p. position p.1 d >>= λ i. some (i ∷ p.0, take i p.1)

  -- The values of a group of documents, and what remains of the table for the next ones.
  unfoldable pub read_sparse : List A → List ℕ → Option (List ℕ × List A)
  read_sparse table ds = positions table ds >>= λ p.
      values_at table p.0 >>= λ vs. some (vs, drop (1 + last_of p.0) table)

  unfoldable pub read_dense : List A → List ℕ → Option (List ℕ × List A)
  read_dense table ds = values_at table ds >>= λ vs. some (vs, table)

  -- `dense` says that the table has an entry for each document of the storage.
  abbrev pub read_table : Bool → List A → List ℕ → Option (List ℕ × List A)
  read_table true = read_dense
  read_table false = read_sparse
