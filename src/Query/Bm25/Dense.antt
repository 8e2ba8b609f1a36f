-- ===== src/Query/Bm25/Dense.antt =====
-- A table of as many entries as there are documents has each at its document's index.
use textiplex.Prelude.{
  ℕ, zero, suc, ◌+◌, ◌≤◌, ◌<◌, ◌≡◌, refl, ap, ◌∙◌, true, false, some, List, [], ◌∷◌, ◌==◌, length,
  get_elem?, All, All-map, Bool-cases, inl, inr, arith,
}
use textiplex.Query.Bm25.Tables.{value_at}
use textiplex.Query.Bm25.Reads.{IsSorted, lookup, HasValues, Serves}

module _ {A : Type 0} (key value : A → ℕ) where
  -- Keys between two bounds are no more than there is room for.
  room :
      (t : List A) (a b : ℕ)
      → IsSorted key value t
      → All (λ x. a ≤ key x) t
      → All (λ x. key x < b) t
      → a ≤ b
      → a + length t ≤ b
  room [] a b h low high l = omega arith
  room (x ∷ t) a b h low high l =
      omega
        (arith, room t (key x + 1) b h.1 (All-map t (λ y k. omega arith) h.0) high.1, low.0, high.0)

  first :
      (x : A) (t : List A) (a : ℕ)
      → IsSorted key value (x ∷ t)
      → All (λ y. a ≤ key y) (x ∷ t)
      → All (λ y. key y < a + length (x ∷ t)) (x ∷ t)
      → key x ≡ a
  first x t a h low high = omega (
    arith,
    low.0,
    high.0,
    room t (key x + 1) (a + length (x ∷ t)) h.1 (All-map t (λ y k. omega arith) h.0) high.1
        (omega (arith, high.0)),
  )

  -- In a table with every key from `a` on, each key is at its place.
  at_place :
      (t : List A) (a i : ℕ)
      → IsSorted key value t
      → All (λ x. a ≤ key x) t
      → All (λ x. key x < a + length t) t
      → get_elem? t i ≡ lookup key value t (a + i)
  at_place [] a i h low high = refl
  at_place (x ∷ t) a zero h low high = rw (same (key x) a (first x t a h low high)) refl
    where
      same : (m a : ℕ) → m ≡ a → (m == (a + 0)) ≡ true
      same m a h = ground arith
  at_place (x ∷ t) a (suc i) h low high =
      at_place t (a + 1) i h.1 (All-map t (λ y k. omega (arith, low.0)) h.0)
        (All-map t (λ y k. omega arith) high.1)
      ∙ ap (lookup key value t) (add_one a i)
      ∙ rw (apart (key x) a i (first x t a h low high)) refl
    where
      add_one : (a i : ℕ) → a + 1 + i ≡ a + suc i
      add_one a i = omega arith

      apart : (m a i : ℕ) → m ≡ a → (m == (a + suc i)) ≡ false
      apart m a i h = ground arith

  dense_values :
      (t : List A) (f : ℕ → ℕ) (ds : List ℕ)
      → ((d : ℕ) → get_elem? t d ≡ lookup key value t d)
      → HasValues key value t f ds
      → All (λ d. value_at key value t d ≡ some (f d)) ds
  unfolding value_at
  dense_values t f [] place has = tt
  dense_values t f (d ∷ ds) place ((x, found, same), has) =
      (rw (place d, found, same) refl, dense_values t f ds place has)

  -- The code's own test for a dense table is enough.
  pub Serves-length :
      (t : List A) (n : ℕ) (f : ℕ → ℕ) (ds : List ℕ)
      → IsSorted key value t
      → All (λ x. key x < n) t
      → HasValues key value t f ds
      → Serves key value (length t == n) t f ds
  Serves-length t n f ds h small has = elim (Bool-cases (length t == n)) [
    | inl full ↦ rw full (
        dense_values t f ds
          (λ d.
            at_place t 0 d h (All-map t (λ x k. omega arith) small)
              (All-map t (λ x k. below_length (length t) n (key x) full k) small)
            ∙ ap (lookup key value t) (zero_add d))
          has)
    | inr partial ↦ rw partial (h, has)
  ]
    where
      below_length : (l n k : ℕ) → (l == n) ≡ true → k < n → k < 0 + l
      below_length l n k h j = ground arith

      zero_add : (d : ℕ) → 0 + d ≡ d
      zero_add d = omega arith
