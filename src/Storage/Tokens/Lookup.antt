-- ===== src/Storage/Tokens/Lookup.antt =====
-- What the searches of `Tokens` find in a sorted table.
use textiplex.Prelude.{
  ◌≡◌, refl, Bool, true, false, none, some, [], ◌∷◌, get_elem?, not, Bool-cases, Option-cases,
  get_elem?_lt, get_elem?-none, inl, inr, arith,
}
use textiplex.Bytes.{Bytes, compare_bytes, is_lt, ◌≺◌, ≺_trans, compare_bytes-eq}
use textiplex.Search.Partition.{rank}
use textiplex.Search.Chain.{any, find?, binary_search_of_chain, get_elem?-rank, found_at-rank}
use textiplex.Storage.Headers.{Token, bytes}
use textiplex.Storage.Tokens.{
  Tokens, value_below, value_is, binary_search_bytes, get_bytes, get_bytes_or_near, Precedes,
  IsSorted,
}

module _ (b : Bytes) where
  pub below_down : (x y : Token) → Precedes x y → value_below b y ≡ true → value_below b x ≡ true
  below_down x y r h = rw (≺_trans (bytes x.value) (bytes y.value) b r (is_lt-true h)) refl
    where
      is_lt-true : is_lt (compare_bytes (bytes y.value) b) ≡ true → bytes y.value ≺ b
      is_lt-true h = ground arith

  pub below_apart : (x : Token) → value_is b x ≡ true → value_below b x ≡ false
  below_apart x h = ground arith

  pub below_above : (x y : Token) → Precedes x y → value_is b y ≡ true → value_below b x ≡ true
  below_above x y r h = rw (← compare_bytes-eq (bytes y.value) b (ground arith)) (rw r refl)

  -- On a sorted table the search reports how many tokens are below the value and whether it is there.
  pub binary_search_bytes_lem :
      (s : Tokens)
      → IsSorted s
      → binary_search_bytes s b ≡ some (rank (value_below b) s, any (value_is b) s)
  unfolding binary_search_bytes
  binary_search_bytes_lem = binary_search_of_chain below_down below_apart below_above

  any-find? : (p : Token → Bool) (s : Tokens) → any p s ≡ false → find? p s ≡ none
  any-find? p [] h = refl
  any-find? p (x ∷ s) h = ground (arith, any-find? p s)

  first_equal :
      (s : Tokens)
      → IsSorted s
      → any (value_is b) s ≡ true
      → get_elem? s (rank (value_below b) s) ≡ find? (value_is b) s
  first_equal [] c h = ground arith
  first_equal (x ∷ s) c h = elim (Bool-cases (value_below b x)) [
    | inl e ↦ ground (arith, first_equal s c.1, below_apart x)
    | inr e ↦ ground (arith, found_at-rank below_down below_apart below_above (x ∷ s) c)
  ]

  -- On a strictly ascending table `GetBytes` returns the token with the value, or nil if the
  -- table has none.
  pub get_bytes-eq-find? : (s : Tokens) → IsSorted s → get_bytes s b ≡ some (find? (value_is b) s)
  unfolding get_bytes
  get_bytes-eq-find? s c =
      rw (binary_search_bytes_lem s c) (elim (Bool-cases (any (value_is b) s)) [
        | inl e ↦
            ground (arith, first_equal s c e, found_at-rank below_down below_apart below_above s c)
        | inr e ↦ ground (arith, any-find? (value_is b) s e)
      ])

  -- On a strictly ascending table `GetBytesOrNear` returns the first token that is not below
  -- the value, or nil if all are.
  pub get_bytes_or_near-eq-find? :
      (s : Tokens)
      → IsSorted s
      → get_bytes_or_near s b ≡ some (find? (λ t. not (value_below b t)) s)
  unfolding get_bytes_or_near
  get_bytes_or_near-eq-find? s c =
      rw (binary_search_bytes_lem s c) (elim (Option-cases (get_elem? s (rank (value_below b) s))) [
        | inl e ↦ ground (
          arith,
          e,
          get_elem?-none s (rank (value_below b) s),
          get_elem?-rank below_down below_apart below_above s c,
          found_at-rank below_down below_apart below_above s c,
        )
        | inr (t, e) ↦ ground (
          arith,
          e,
          get_elem?_lt s (rank (value_below b) s) t,
          get_elem?-rank below_down below_apart below_above s c,
        )
      ])
