-- ===== src/Query/Bm25/Reads.antt =====
-- Both ways to read a table give the values of the documents, and leave the later ones to be read.
use textiplex.Prelude.{
  ℕ, zero, suc, ◌+◌, ◌≤◌, ◌<◌, ◌≡◌, refl, ◌∙◌, Bool, true, false, Option, none, some, List, [], ◌∷◌,
  ◌++◌, ltb, ◌==◌, map, get_elem?, take, drop, All, All-map, IsChain, Bool-cases, inl, inr, arith,
}
use textiplex.Search.Partition.{rank}
use textiplex.Search.Chain.{find?, search_of_chain}
use textiplex.Query.Bm25.Tables.{
  position, value_at, values_at, positions, last_of, read_sparse, read_dense, read_table,
}

module _ {A : Type 0} (P : A → Type 0) where
  All-front : (xs ys : List A) → All P (xs ++ ys) → All P xs
  All-front [] ys h = tt
  All-front (x ∷ xs) ys h = (h.0, All-front xs ys h.1)

  pub All-back : (xs ys : List A) → All P (xs ++ ys) → All P ys
  All-back [] ys h = h
  All-back (x ∷ xs) ys h = All-back xs ys h.1

All-last : (P : ℕ → Type 0) (d : ℕ) (ds : List ℕ) → All P (d ∷ ds) → P (last_of (d ∷ ds))
All-last P d [] h = h.0
All-last P d (e ∷ ds) h = All-last P e ds h.1

IsChain-front : (xs ys : List ℕ) → IsChain ◌<◌ (xs ++ ys) → IsChain ◌<◌ xs
IsChain-front [] ys c = tt
IsChain-front (x ∷ xs) ys c = (All-front (λ y. x < y) xs ys c.0, IsChain-front xs ys c.1)

last-lt :
    (d : ℕ) (ds es : List ℕ) → IsChain ◌<◌ ((d ∷ ds) ++ es) → All (λ e. last_of (d ∷ ds) < e) es
last-lt d [] es c = c.0
last-lt d (e ∷ ds) es c = last-lt e ds es c.1

module _ {A : Type 0} (key value : A → ℕ) where
  -- Strictly ascending keys.
  abbrev pub IsSorted : List A → Type 0
  IsSorted = IsChain (λ x y. key x < key y)

  abbrev pub lookup : List A → ℕ → Option A
  lookup table d = find? (λ x. key x == d) table

  abbrev below : ℕ → A → Bool
  below d x = ltb (key x) d

  abbrev HasValue : List A → (ℕ → ℕ) → ℕ → Type 0
  HasValue table f d = (x : A) × (lookup table d ≡ some x) × (value x ≡ f d)

  -- The table has the value `f d` for each document `d` of the list.
  abbrev pub HasValues : List A → (ℕ → ℕ) → List ℕ → Type 0
  HasValues table f ds = All (HasValue table f) ds

  take-IsSorted : (n : ℕ) (t : List A) → IsSorted t → IsSorted (take n t)
  take-IsSorted zero t h = tt
  take-IsSorted (suc n) [] h = tt
  take-IsSorted (suc n) (x ∷ t) h = (All-take n t h.0, take-IsSorted n t h.1)
    where
      All-take :
          (n : ℕ) (t : List A) → All (λ y. key x < key y) t → All (λ y. key x < key y) (take n t)
      All-take zero t h = tt
      All-take (suc n) [] h = tt
      All-take (suc n) (y ∷ t) h = (h.0, All-take n t h.1)

  drop-IsSorted : (n : ℕ) (t : List A) → IsSorted t → IsSorted (drop n t)
  drop-IsSorted zero t h = h
  drop-IsSorted (suc n) [] h = tt
  drop-IsSorted (suc n) (x ∷ t) h = drop-IsSorted n t h.1

  position_lem :
      (t : List A) (d : ℕ) → IsSorted t → position key value t d ≡ some (rank (below d) t)
  unfolding position
  position_lem t d h = search_of_chain (λ x y r k. ground arith) t h

  rank-take :
      (t : List A) (d e : ℕ)
      → d ≤ e
      → (rank (below d) (take (rank (below e) t) t) ≡ rank (below d) t)
        × (take (rank (below d) t) (take (rank (below e) t) t) ≡ take (rank (below d) t) t)
  rank-take [] d e h = (refl, refl)
  rank-take (x ∷ t) d e h = elim (Bool-cases (below d x)) [
    | inl l ↦ ground (arith, rank-take t d e h)
    | inr l ↦ ground arith
  ]

  absent : (t : List A) (d : ℕ) → All (λ x. d < key x) t → lookup t d ≡ none
  absent [] d h = refl
  absent (x ∷ t) d h = ground (arith, h.0, absent t d h.1)

  later : (t : List A) (n d : ℕ) → d ≤ n → All (λ x. n < key x) t → All (λ x. d < key x) t
  later t n d l h = All-map t (λ x k. omega arith) h

  -- The found element stands at the rank.
  at_rank :
      (t : List A) (d : ℕ) (x : A)
      → IsSorted t
      → lookup t d ≡ some x
      → get_elem? t (rank (below d) t) ≡ some x
  at_rank [] d x h found = ground arith
  at_rank (y ∷ t) d x h found = elim (Bool-cases (below d y)) [
    | inl l ↦ ground (arith, at_rank t d x h.1)
    | inr l ↦ elim (Bool-cases (key y == d)) [
      | inl e ↦ ground arith
      | inr e ↦ ground (arith, absent t d (later t (key y) d (ground arith) h.0))
    ]
  ]

  -- Behind a document that was found, the later ones are found as before.
  lookup-drop :
      (t : List A) (d e : ℕ) (x : A)
      → IsSorted t
      → lookup t d ≡ some x
      → d < e
      → lookup (drop (1 + rank (below d) t) t) e ≡ lookup t e
  lookup-drop [] d e x h found l = refl
  lookup-drop (y ∷ t) d e x h found l = elim (Bool-cases (below d y)) [
    | inl m ↦
        rw (m, one_add_suc (rank (below d) t), other (key y) e (ground arith))
          (lookup-drop t d e x h.1 (passed t y m found) l)
    | inr m ↦ rw (m, other (key y) e (in_place t y h.0 m found)) refl
  ]
    where
      one_add_suc : (n : ℕ) → 1 + suc n ≡ suc (1 + n)
      one_add_suc n = omega arith

      other : (m e : ℕ) → m < e → (m == e) ≡ false
      other m e h = ground arith

      passed :
          (t : List A) (y : A) → below d y ≡ true → lookup (y ∷ t) d ≡ some x → lookup t d ≡ some x
      passed t y m found = ground arith

      in_place :
          (t : List A) (y : A)
          → All (λ x. key y < key x) t
          → below d y ≡ false
          → lookup (y ∷ t) d ≡ some x
          → key y < e
      in_place t y above m found = elim (Bool-cases (key y == d)) [
        | inl same ↦ ground (arith, same)
        | inr apart ↦
            absurd (ground (arith, apart, absent t d (later t (key y) d (ground arith) above)))
      ]

  position_of : List A → ℕ → ℕ
  position_of t d = rank (below d) t

  positions_lem :
      (t : List A) (d : ℕ) (ds : List ℕ)
      → IsSorted t
      → IsChain ◌<◌ (d ∷ ds)
      → positions key value t (d ∷ ds)
        ≡ some (map (position_of t) (d ∷ ds), take (position_of t d) t)
  unfolding positions position_of
  positions_lem t d [] h c = rw (position_lem t d h) refl
  positions_lem t d (e ∷ ds) h c =
      let l : d ≤ e = omega (arith, c.0.0) in
      rw
        (
          positions_lem t e ds h c.1,
          position_lem (take (rank (below e) t) t) d (take-IsSorted (rank (below e) t) t h),
          (rank-take t d e l).0,
          (rank-take t d e l).1,
        )
        refl

  values_lem :
      (t : List A) (f : ℕ → ℕ) (ds : List ℕ)
      → IsSorted t
      → HasValues t f ds
      → values_at key value t (map (position_of t) ds) ≡ some (map f ds)
  unfolding values_at value_at position_of
  values_lem t f [] h has = refl
  values_lem t f (d ∷ ds) h ((x, found, same), has) =
      rw (at_rank t d x h found, same, values_lem t f ds h has) refl

  last_of-map : (g : ℕ → ℕ) (d : ℕ) (ds : List ℕ) → last_of (map g (d ∷ ds)) ≡ g (last_of (d ∷ ds))
  last_of-map g d [] = refl
  last_of-map g d (e ∷ ds) = last_of-map g e ds

  read_sparse_lem :
      (t : List A) (f : ℕ → ℕ) (d : ℕ) (ds : List ℕ)
      → IsSorted t
      → IsChain ◌<◌ (d ∷ ds)
      → HasValues t f (d ∷ ds)
      → read_sparse key value t (d ∷ ds)
        ≡ some (map f (d ∷ ds), drop (1 + position_of t (last_of (d ∷ ds))) t)
  unfolding read_sparse
  read_sparse_lem t f d ds h c has =
      rw (positions_lem t d ds h c, values_lem t f (d ∷ ds) h has, last_of-map (position_of t) d ds)
        refl

  -- What a table is good for: the values of the documents that are still to come.
  abbrev pub Serves : Bool → List A → (ℕ → ℕ) → List ℕ → Type 0
  Serves false t f ds = IsSorted t × HasValues t f ds
  Serves true t f ds = All (λ d. value_at key value t d ≡ some (f d)) ds

  HasValues-drop :
      (t : List A) (f : ℕ → ℕ) (d : ℕ) (x : A) (es : List ℕ)
      → IsSorted t
      → lookup t d ≡ some x
      → All (λ e. d < e) es
      → HasValues t f es
      → HasValues (drop (1 + position_of t d) t) f es
  unfolding position_of
  HasValues-drop t f d x [] h found l has = tt
  HasValues-drop t f d x (e ∷ es) h found l ((y, there, same), has) = (
    (y, lookup-drop t d e x h found l.0 ∙ there, same),
    HasValues-drop t f d x es h found l.1 has,
  )

  values_read :
      (t : List A) (f : ℕ → ℕ) (ds : List ℕ)
      → All (λ d. value_at key value t d ≡ some (f d)) ds
      → values_at key value t ds ≡ some (map f ds)
  unfolding values_at
  values_read t f [] h = refl
  values_read t f (d ∷ ds) h = rw (h.0, values_read t f ds h.1) refl

  -- A group is read, and the table serves the documents behind it.
  pub read_lem :
      (dense : Bool) (t : List A) (f : ℕ → ℕ) (d : ℕ) (ds es : List ℕ)
      → IsChain ◌<◌ ((d ∷ ds) ++ es)
      → Serves dense t f ((d ∷ ds) ++ es)
      → (t' : List A) × (read_table key value dense t (d ∷ ds) ≡ some (map f (d ∷ ds), t'))
        × Serves dense t' f es
  unfolding read_dense
  read_lem true t f d ds es c serves = (
    t,
    rw
        (values_read t f (d ∷ ds)
          (All-front (λ d. value_at key value t d ≡ some (f d)) (d ∷ ds) es serves))
        refl,
    All-back (λ d. value_at key value t d ≡ some (f d)) (d ∷ ds) es serves,
  )
  read_lem false t f d ds es c (h, has) =
      let (x, found, _) = All-last (HasValue t f) d ds (All-front (HasValue t f) (d ∷ ds) es has) in
      (
        drop (1 + position_of t (last_of (d ∷ ds))) t,
        read_sparse_lem t f d ds h (IsChain-front (d ∷ ds) es c)
            (All-front (HasValue t f) (d ∷ ds) es has),
        (
          drop-IsSorted (1 + position_of t (last_of (d ∷ ds))) t h,
          HasValues-drop t f (last_of (d ∷ ds)) x es h found (last-lt d ds es c)
              (All-back (HasValue t f) (d ∷ ds) es has),
        ),
      )
