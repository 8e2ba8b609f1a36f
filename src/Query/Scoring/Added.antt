-- ===== src/Query/Scoring/Added.antt =====
-- `Reset`, `Add` and `Get` of `Scoring`, one after another.
use textiplex.Prelude.{
  ℕ, ◌<◌, ◌≡◌, refl, sym, ap, subst, ◌∙◌, true, false, some, List, [], ◌∷◌, ◌==◌, map, All,
  if◌then◌else◌, Bool-cases, inl, inr, arith,
}
use textiplex.Roaring.{Roaring, IsRoaring, contains}
use textiplex.Search.Chain.{any, find?}
use textiplex.Storage.Headers.{Float32}
use textiplex.Query.Scoring.{Score, index_is, get_score, add_score, reset_scores}
use textiplex.Query.Scoring.Updates.{
  IsAscending, value_of, raise_at, add_score-eq-map, get_score-eq-find?, reset_scores-IsAscending,
}

abbrev zero_score : ℕ → Score
zero_score i = record { index = i; value = 0 }

equal : (i j : ℕ) → (i == j) ≡ true → i ≡ j
equal i j h = ground (arith, h)

find?-zero_score :
    (x : ℕ) (l : List ℕ)
    → any (λ y. y == x) l ≡ true
    → find? (index_is x) (map zero_score l) ≡ some (zero_score x)
find?-zero_score x [] h = ground arith
find?-zero_score x (i ∷ l) h = elim (Bool-cases (i == x)) [
  | inl same ↦ rw same (ap (λ j. some (zero_score j)) (equal i x same))
  | inr other ↦ rw other (find?-zero_score x l (rw other at h))
]

module _ (add_float : Float32 → Float32 → Float32) (x : ℕ) (v : Float32) where
  raise_at-above :
      (k : ℕ) (s : List Score)
      → All (λ z. k < z.index) s
      → All (λ z. k < z.index) (map (raise_at x add_float v) s)
  raise_at-above k [] h = tt
  raise_at-above k (z ∷ s) h = elim (Bool-cases (z.index == x)) [
    | inl same ↦ rw same (h.0, raise_at-above k s h.1)
    | inr other ↦ rw other (h.0, raise_at-above k s h.1)
  ]

  raise_at-IsAscending :
      (s : List Score) → IsAscending s → IsAscending (map (raise_at x add_float v) s)
  raise_at-IsAscending [] c = tt
  raise_at-IsAscending (z ∷ s) c = elim (Bool-cases (z.index == x)) [
    | inl same ↦ rw same (raise_at-above z.index s c.0, raise_at-IsAscending s c.1)
    | inr other ↦ rw other (raise_at-above z.index s c.0, raise_at-IsAscending s c.1)
  ]

  abbrev after : ℕ → List ℕ → Float32
  after y l = value_of y (find? (index_is y) (map (raise_at x add_float v) (map zero_score l)))

  after-same : (l : List ℕ) → any (λ i. i == x) l ≡ true → after x l ≡ add_float 0 v
  after-same [] h = ground arith
  after-same (i ∷ l) h = elim (Bool-cases (i == x)) [
    | inl same ↦ rw (same, same) refl
    | inr other ↦ rw (other, other) (after-same l (rw other at h))
  ]

  after-other : (y : ℕ) (l : List ℕ) → (y == x) ≡ false → after y l ≡ 0
  after-other y [] h = refl
  after-other y (i ∷ l) h = elim (Bool-cases (i == x)) [
    | inl same ↦ rw (same, apart i same) (after-other y l h)
    | inr other ↦ elim (Bool-cases (i == y)) [
      | inl found ↦ rw (other, found) refl
      | inr missed ↦ rw (other, missed) (after-other y l h)
    ]
  ]
    where
      apart : (i : ℕ) → (i == x) ≡ true → (i == y) ≡ false
      apart i same = ground (arith, same, h)

  value_after :
      (y : ℕ) (l : List ℕ)
      → any (λ i. i == x) l ≡ true
      → after y l ≡ (if y == x then add_float 0 v else 0)
  value_after y l h = elim (Bool-cases (y == x)) [
    | inl same ↦
        rw same (subst (λ z. after z l ≡ add_float 0 v) (sym (equal y x same)) (after-same l h))
    | inr other ↦ rw other (after-other y l other)
  ]

  module _ (r : Roaring) (law : IsRoaring r) where
    -- For a bitmap library that keeps its laws, a bitmap, one of its documents and any
    -- second one: after `Reset` to the bitmap, `Add` of a score to the first document from
    -- the front returns, and then `Get` from the front returns for the second the sum of 0
    -- and that score if it is the same document, and 0 otherwise.
    pub get_score-add_score :
        (b : r.Bitmap) (y : ℕ)
        → contains r b x ≡ true
        → (s : List Score) × (guess : ℕ) × (add_score add_float 0 x v (reset_scores r b)
            ≡ some (s, guess))
          × (get_score 0 y s ≡ some (if y == x then add_float 0 v else 0))
    unfolding reset_scores
    get_score-add_score b y has =
        let scores = map zero_score (r.to_array b) in
        let ascending : IsAscending scores = reset_scores-IsAscending r law b in
        (
          map (raise_at x add_float v) scores,
          _,
          add_score-eq-map x add_float v 0 scores (zero_score x) ascending (omega arith)
              (find?-zero_score x (r.to_array b) has),
          get_score-eq-find? y 0 (map (raise_at x add_float v) scores)
                (raise_at-IsAscending scores ascending) (omega arith)
              ∙ ap some (value_after y (r.to_array b) has),
        )
