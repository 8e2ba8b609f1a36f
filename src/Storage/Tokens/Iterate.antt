-- ===== src/Storage/Tokens/Iterate.antt =====
-- The part of a sorted table that `IterBytes` walks.
use textiplex.Prelude.{
  ℕ, ◌+◌, ◌-◌, ◌<◌, ◌≡◌, true, ◌||◌, none, some, [], ◌∷◌, length, get_elem?, get_elem?_lt,
  Bool-cases, Option-cases, take, drop, leb, if◌then◌else◌, inl, inr, arith,
}
use textiplex.Bytes.{Bytes}
use textiplex.Search.Partition.{rank}
use textiplex.Search.Chain.{any, found_at-rank}
use textiplex.Storage.Tokens.{Tokens, value_below, value_is, iter_bytes, IsSorted, bound, between}
use textiplex.Storage.Tokens.Lookup.{below_down, below_apart, below_above, binary_search_bytes_lem}

-- What the search finds is in the table.
found_lt :
    (b : Bytes) (s : Tokens)
    → IsSorted s
    → any (value_is b) s ≡ true
    → rank (value_below b) s < length s
found_lt b s c h = elim (Option-cases (get_elem? s (rank (value_below b) s))) [
  | inl e ↦ ground (arith, e, found_at-rank (below_down b) (below_apart b) (below_above b) s c)
  | inr (t, e) ↦ get_elem?_lt s (rank (value_below b) s) t e
]

bound_lem :
    (b : Bytes) (s : Tokens)
    → IsSorted s
    → bound s b
      ≡ some
          (if leb (length s) (rank (value_below b) s) then none else some (rank (value_below b) s))
bound_lem b s c = rw (binary_search_bytes_lem b s c) (elim (Bool-cases (any (value_is b) s)) [
  | inl e ↦ ground (arith, found_lt b s c e)
  | inr e ↦ ground (arith, e)
])

-- On a strictly ascending table that is not empty, `IterBytes` walks from the first token that
-- is not below `lo` through the first that is not below `hi`, and walks nothing if one of the
-- two does not exist.
pub iter_bytes-eq-take :
    (lo hi : Bytes) (s : Tokens)
    → IsSorted s
    → 0 < length s
    → iter_bytes s (some lo) (some hi)
      ≡ some (
          if leb (length s) (rank (value_below lo) s) || leb (length s) (rank (value_below hi) s)
          then []
          else take
              (rank (value_below hi) s + 1 - rank (value_below lo) s)
              (drop (rank (value_below lo) s) s))
unfolding iter_bytes
iter_bytes-eq-take lo hi [] c ne = absurd (omega arith)
iter_bytes-eq-take lo hi (x ∷ s) c ne =
    rw (bound_lem lo (x ∷ s) c, bound_lem hi (x ∷ s) c)
      (ends (rank (value_below lo) (x ∷ s)) (rank (value_below hi) (x ∷ s)) (x ∷ s))
  where
    ends :
        (lo hi : ℕ) (s : Tokens)
        → between s
            (if leb (length s) lo then none else some lo)
            (if leb (length s) hi then none else some hi)
          ≡ some (
              if leb (length s) lo || leb (length s) hi then [] else take (hi + 1 - lo) (drop lo s))
    ends lo hi s = elim (Bool-cases (leb lo hi)) [
      | inl e ↦ ground arith
      | inr e ↦
          (let none_left : hi + 1 - lo ≡ 0 = ground (arith, e) in rw none_left (ground (arith, e)))
    ]
