-- ===== src/Query/Scoring/Updates.antt =====
-- What the searches of `Scoring` find and change, for scores in ascending order of the documents.
use textiplex.Prelude.{
  ℕ, zero, suc, ◌+◌, ◌≤◌, ◌<◌, ◌≡◌, refl, ap, ◌∙◌, Option, none, some, List, [], ◌∷◌, ◌==◌, length,
  map, get_elem?, set, drop, All, IsChain, if◌then◌else◌, Bool-cases, inl, inr, le→leb, take_all,
  length-drop, arith,
}
use textiplex.Roaring.{Roaring, IsRoaring}
use textiplex.Search.{search}
use textiplex.Search.Partition.{rank}
use textiplex.Search.Chain.{find?, search_of_chain}
use textiplex.Storage.Headers.{Float32}
use textiplex.Query.Scoring.{
  Score, index_below, index_is, sub_scores, get_score, add_score, reset_scores, raised,
}

abbrev pub IsAscending : List Score → Type 0
IsAscending = IsChain (λ x y. x.index < y.index)

IsAscending-drop : (n : ℕ) (s : List Score) → IsAscending s → IsAscending (drop n s)
IsAscending-drop zero s c = c
IsAscending-drop (suc n) [] c = c
IsAscending-drop (suc n) (x ∷ s) c = IsAscending-drop n s c.1

sub_scores-eq-drop : (n : ℕ) (s : List Score) → n ≤ length s → sub_scores n s ≡ some (drop n s)
sub_scores-eq-drop n s h =
    rw (le→leb n (length s) h, le→leb (length s) (length s) (omega arith), ← length-drop n s)
      (ap some (take_all (drop n s)))

module _ (idx : ℕ) where
  search_scores :
      (s : List Score)
      → IsAscending s
      → search (index_below idx) s ≡ some (rank (index_below idx) s)
  search_scores = search_of_chain (λ x y r h. ground arith)

  none_above : (s : List Score) → All (λ x. idx < x.index) s → find? (index_is idx) s ≡ none
  none_above [] h = refl
  none_above (x ∷ s) h = ground (arith, h.0, none_above s h.1)

  abbrev matching : Option Score → Option Score
  matching none = none
  matching (some x) = if x.index == idx then some x else none

  above : (n : ℕ) (s : List Score) → All (λ x. n < x.index) s → idx ≤ n → All (λ x. idx < x.index) s
  above n [] h l = tt
  above n (x ∷ s) h l = (ground (arith, h.0), above n s h.1 l)

  at_rank :
      (s : List Score)
      → IsAscending s
      → matching (get_elem? s (rank (index_below idx) s)) ≡ find? (index_is idx) s
  at_rank [] c = refl
  at_rank (x ∷ s) c = elim (Bool-cases (index_below idx x)) [
    | inl l ↦ ground (arith, at_rank s c.1)
    | inr l ↦ elim (Bool-cases (index_is idx x)) [
      | inl e ↦ ground arith
      | inr e ↦ ground (arith, none_above s (above x.index s c.0 (ground arith)))
    ]
  ]

  abbrev pub value_of : Option Score → Float32
  value_of none = 0
  value_of (some x) = x.value

  -- In ascending scores and for a guess not behind them, `Get` returns the score that the
  -- document has from the guess on, or 0 if it has none there.
  pub get_score-eq-find? :
      (guess : ℕ) (s : List Score)
      → IsAscending s
      → guess ≤ length s
      → get_score guess idx s ≡ some (value_of (find? (index_is idx) (drop guess s)))
  unfolding get_score
  get_score-eq-find? guess s c h =
      rw
        (
          sub_scores-eq-drop guess s h,
          search_scores (drop guess s) (IsAscending-drop guess s c),
          ← at_rank (drop guess s) (IsAscending-drop guess s c),
        )
        (ap some (same (get_elem? (drop guess s) (rank (index_below idx) (drop guess s)))))
    where
      same :
          (o : Option Score)
          → elim o [ none ↦ 0 | some x ↦ if x.index == idx then x.value else 0 ]
            ≡ value_of (matching o)
      same none = refl
      same (some x) = ground arith

  module _ (add_float : Float32 → Float32 → Float32) (score : Float32) where
    abbrev pub raise_at : Score → Score
    raise_at x = if x.index == idx then raised add_float score x else x

    raise_none : (s : List Score) → All (λ x. idx < x.index) s → map raise_at s ≡ s
    raise_none [] h = refl
    raise_none (x ∷ s) h = ground (arith, h.0, raise_none s h.1)

    set-rank :
        (s : List Score) (x : Score)
        → IsAscending s
        → find? (index_is idx) s ≡ some x
        → set s (rank (index_below idx) s) (raised add_float score x) ≡ map raise_at s
    set-rank [] x c h = refl
    set-rank (y ∷ s) x c h = elim (Bool-cases (index_below idx y)) [
      | inl l ↦ ground (arith, set-rank s x c.1)
      | inr l ↦ elim (Bool-cases (index_is idx y)) [
        | inl e ↦ ground (arith, raise_none s (above y.index s c.0 (ground arith)))
        | inr e ↦ ground (arith, none_above s (above y.index s c.0 (ground arith)))
      ]
    ]

    found_above :
        (n : ℕ) (s : List Score) (x : Score)
        → All (λ x. n < x.index) s
        → find? (index_is idx) s ≡ some x
        → n < idx
    found_above n [] x h e = ground arith
    found_above n (y ∷ s) x h e = ground (arith, h.0, found_above n s x h.1)

    All-drop : (P : Score → Type 0) (g : ℕ) (s : List Score) → All P s → All P (drop g s)
    All-drop P zero s h = h
    All-drop P (suc g) [] h = h
    All-drop P (suc g) (x ∷ s) h = All-drop P g s h.1

    set-drop :
        (g : ℕ) (s : List Score) (x : Score)
        → IsAscending s
        → find? (index_is idx) (drop g s) ≡ some x
        → set s (g + rank (index_below idx) (drop g s)) (raised add_float score x) ≡ map raise_at s
    set-drop zero s x c e = rw (zero_add (rank (index_below idx) s)) (set-rank s x c e)
      where
        zero_add : (n : ℕ) → 0 + n ≡ n
        zero_add n = omega arith
    set-drop (suc g) [] x c e = refl
    set-drop (suc g) (y ∷ s) x c e = rw (suc_add g (rank (index_below idx) (drop g s))) (
        ground (
          arith,
          set-drop g s x c.1 e,
          found_above y.index (drop g s) x (All-drop (λ x. y.index < x.index) g s c.0) e,
        ))
      where
        suc_add : (m n : ℕ) → suc m + n ≡ suc (m + n)
        suc_add m n = omega arith

    find?-at : (o : Option Score) (x : Score) → matching o ≡ some x → o ≡ some x
    find?-at none x e = e
    find?-at (some y) x e = ground arith

    -- In ascending scores, for a guess not behind them and a document that has a score
    -- from the guess on: `Add` raises the score of that document and no other, and returns
    -- its position as the next guess.
    pub add_score-eq-map :
        (guess : ℕ) (s : List Score) (x : Score)
        → IsAscending s
        → guess ≤ length s
        → find? (index_is idx) (drop guess s) ≡ some x
        → add_score add_float guess idx score s
          ≡ some (map raise_at s, guess + rank (index_below idx) (drop guess s))
    unfolding add_score
    add_score-eq-map guess s x c h e =
        let c' = IsAscending-drop guess s c in
        rw
          (
            sub_scores-eq-drop guess s h,
            search_scores (drop guess s) c',
            find?-at (get_elem? (drop guess s) (rank (index_below idx) (drop guess s))) x
                (at_rank (drop guess s) c' ∙ e),
          )
          (ap (λ l. some (l, guess + rank (index_below idx) (drop guess s)))
            (set-drop guess s x c e))

module _ (r : Roaring) (law : IsRoaring r) where
  map-IsAscending :
      (l : List ℕ) → IsChain ◌<◌ l → IsAscending (map (λ i. record { index = i; value = 0 }) l)
  map-IsAscending [] c = tt
  map-IsAscending (i ∷ l) c = (later l c.0, map-IsAscending l c.1)
    where
      later :
          (l : List ℕ)
          → All (λ j. i < j) l
          → All {A = Score} (λ x. i < x.index) (map (λ i. record { index = i; value = 0 }) l)
      later [] h = tt
      later (j ∷ l) h = (h.0, later l h.1)

  -- For a bitmap library that keeps its laws, the scores that `Reset` makes are in strictly
  -- ascending order of the documents.
  pub reset_scores-IsAscending : (b : r.Bitmap) → IsAscending (reset_scores r b)
  unfolding reset_scores
  reset_scores-IsAscending b = map-IsAscending (r.to_array b) (law.to_array_ascending b)
