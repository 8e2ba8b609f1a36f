-- ===== src/Search/Chain.antt =====
-- On a sorted slice the comparison splits, and the element at the split is the only candidate.
use textiplex.Prelude.{
  ℕ, zero, suc, ◌≡◌, refl, Bool, true, false, not, ◌||◌, ◌&&◌, Option, none, some, List, [], ◌∷◌,
  get_elem?, All, IsChain, Bool-cases, inl, inr, if◌then◌else◌, arith, drop, keep, ap, sym, subst,
  All-map,
}
use mathlib.Core.Option.{some-injective}
use textiplex.Search.{search, found_at, binary_search}
use textiplex.Search.Partition.{rank, IsSplit, search-eq-rank}

module _ {A : Type 0} where
  abbrev pub any : (A → Bool) → List A → Bool
  any p [] = false
  any p (x ∷ xs) = p x || any p xs

  abbrev pub every : (A → Bool) → List A → Bool
  every p [] = true
  every p (x ∷ xs) = p x && every p xs

  abbrev pub find? : (A → Bool) → List A → Option A
  find? p [] = none
  find? p (x ∷ xs) = if p x then some x else find? p xs

  pub All-get_elem? :
      (P : A → Type 0) (xs : List A) (i : ℕ) (x : A) → All P xs → get_elem? xs i ≡ some x → P x
  All-get_elem? P [] i x h e = ground arith
  All-get_elem? P (y ∷ xs) zero x h e = subst P (some-injective _ _ e) h.0
  All-get_elem? P (y ∷ xs) (suc i) x h e = All-get_elem? P xs i x h.1 e

  any-false :
      (P : A → Type 0) (p : A → Bool) (xs : List A)
      → All P xs
      → ((x : A) → P x → p x ≡ false)
      → any p xs ≡ false
  any-false P p [] h f = refl
  any-false P p (x ∷ xs) h f = rw (f x h.0) (any-false P p xs h.1 f)

module _ {A : Type 0} {R : A → A → Type 0} {less : A → Bool}
    (down : (x y : A) → R x y → less y ≡ true → less x ≡ true) where
  pub later_not_less : (x y : A) → less x ≡ false → R x y → less y ≡ false
  later_not_less x y h r = elim (Bool-cases (less y)) [
    | inl e ↦ ground (arith, down x y r)
    | inr e ↦ e
  ]

  pub IsChain-IsSplit : (s : List A) → IsChain R s → IsSplit less s
  IsChain-IsSplit [] c i x e = ground arith
  IsChain-IsSplit (y ∷ s) c zero x e = ground arith
  IsChain-IsSplit (y ∷ s) c (suc i) x e = elim (Bool-cases (less y)) [
    | inl h ↦ ground (arith, IsChain-IsSplit s c.1 i x e)
    | inr h ↦ rw (later_not_less y x h (All-get_elem? (R y) s i x c.0 e), h) (ground arith)
  ]

  pub search_of_chain : (s : List A) → IsChain R s → search less s ≡ some (rank less s)
  search_of_chain s c = search-eq-rank less s (IsChain-IsSplit s c)

  -- The elements from the split on are those that do not compare less.
  pub drop-rank : (s : List A) → IsChain R s → drop (rank less s) s ≡ keep (λ x. not (less x)) s
  drop-rank [] c = refl
  drop-rank (x ∷ s) c = elim (Bool-cases (less x)) [
    | inl h ↦ rw h (drop-rank s c.1)
    | inr h ↦
        rw h (ap (λ l. x ∷ l) (sym (all_kept s (All-map s (λ y r. later_not_less x y h r) c.0))))
  ]
    where
      all_kept : (l : List A) → All (λ y. less y ≡ false) l → keep (λ x. not (less x)) l ≡ l
      all_kept [] a = refl
      all_kept (y ∷ l) a = rw a.0 (ap (λ l. y ∷ l) (all_kept l a.1))

  module _ {equal : A → Bool} (apart : (x : A) → equal x ≡ true → less x ≡ false)
      (above : (x y : A) → R x y → equal y ≡ true → less x ≡ true) where
    pub later_not_equal : (x y : A) → less x ≡ false → R x y → equal y ≡ false
    later_not_equal x y h r = elim (Bool-cases (equal y)) [
      | inl e ↦ ground (arith, above x y r)
      | inr e ↦ e
    ]

    pub get_elem?-rank :
        (s : List A) → IsChain R s → get_elem? s (rank less s) ≡ find? (λ x. not (less x)) s
    get_elem?-rank [] c = refl
    get_elem?-rank (x ∷ s) c = elim (Bool-cases (less x)) [
      | inl h ↦ rw h (get_elem?-rank s c.1)
      | inr h ↦ rw h
    ]

    pub found_at-rank : (s : List A) → IsChain R s → found_at equal s (rank less s) ≡ any equal s
    found_at-rank [] c = refl
    found_at-rank (x ∷ s) c = elim (Bool-cases (less x)) [
      | inl h ↦ elim (Bool-cases (equal x)) [
        | inl e ↦ ground (arith, apart x e)
        | inr e ↦ rw (h, e) (found_at-rank s c.1)
      ]
      | inr h ↦ rw h (elim (Bool-cases (equal x)) [
        | inl e ↦ rw e
        | inr e ↦ rw (e, any-false (R x) equal s c.0 (λ y r. later_not_equal x y h r))
      ])
    ]

    -- The search reports the number of smaller elements, and whether the target is there.
    pub binary_search_of_chain :
        (s : List A) → IsChain R s → binary_search less equal s ≡ some (rank less s, any equal s)
    unfolding binary_search
    binary_search_of_chain s c = rw (search_of_chain s c, found_at-rank s c)
