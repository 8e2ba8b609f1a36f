-- ===== src/Levenshtein/Row.antt =====
-- What a row of the automaton means: how cheaply the rest of a term can still reach the keyword.
use textiplex.Prelude.{ℕ, ◌+◌, ◌≤◌, ◌≡◌, [], ◌∷◌, min, ◌==◌, if◌then◌else◌, arith}
use textiplex.Bytes.{Bytes}
use textiplex.Levenshtein.{State, cap, next_cell, first_cell, step_from}
use textiplex.Levenshtein.Distance.{dist, dist-nil, dist-cons_left, dist-cons_right, dist_step}

-- The cost of the rest `w`, from the cell `x` with the keyword's rest `kw` and from the cells after.
abbrev pub cost : ℕ → State → Bytes → Bytes → ℕ
cost x [] kw w = x + dist w kw
cost x (y ∷ s) [] w = x + dist w []
cost x (y ∷ s) (b ∷ kw) w = min (x + dist w (b ∷ kw)) (cost y s kw w)

-- A row fits its keyword, no cell is above `top`, and the cells grow by one at most.
abbrev pub IsRow : ℕ → ℕ → State → Bytes → Type 0
IsRow top x [] [] = x ≤ top
IsRow top x [] (b ∷ kw) = ⊥
IsRow top x (y ∷ s) [] = ⊥
IsRow top x (y ∷ s) (b ∷ kw) = (x ≤ top) × (y ≤ x + 1) × IsRow top y s kw

pub cost-le : (x : ℕ) (s : State) (kw w : Bytes) → cost x s kw w ≤ x + dist w kw
cost-le x [] kw w = omega arith
cost-le x (y ∷ s) [] w = omega arith
cost-le x (y ∷ s) (b ∷ kw) w = omega arith

pub IsRow-head : {top : ℕ} (x : ℕ) (s : State) (kw : Bytes) → IsRow top x s kw → x ≤ top
IsRow-head x [] [] row = row
IsRow-head x [] (b ∷ kw) row = absurd row
IsRow-head x (y ∷ s) [] row = absurd row
IsRow-head x (y ∷ s) (b ∷ kw) row = row.0

module _ (k : ℕ) (small : k ≤ 3) where
  pub cap_lem : cap k ≡ k + 1
  unfolding cap
  cap_lem = omega arith

  abbrev least : ℕ → ℕ → ℕ → ℕ → ℕ → ℕ
  least c b diagonal above left =
      min (cap k) (min (left + 1) (min (above + 1) (diagonal + (if c == b then 0 else 1))))

  next_cell_lem :
      (c b diagonal above left : ℕ)
      → diagonal ≤ cap k
      → above ≤ cap k
      → left ≤ cap k
      → next_cell k c b diagonal above left ≡ least c b diagonal above left
  unfolding next_cell
  next_cell_lem c b diagonal above left p q r = ground (arith)

  pub first_cell_lem : (v : ℕ) → v ≤ cap k → first_cell k v ≡ min (cap k) (v + 1)
  unfolding first_cell
  first_cell_lem v h = ground arith

  module _ (c : ℕ) where
    -- A step keeps the shape of the row.
    pub step_from-IsRow :
        (left x : ℕ) (s : State) (kw : Bytes)
        → IsRow (cap k) x s kw
        → left ≤ cap k
        → IsRow (cap k) left (step_from k c left x s kw) kw
    unfolding step_from
    step_from-IsRow left x [] [] row h = h
    step_from-IsRow left x [] (b ∷ kw) row h = absurd row
    step_from-IsRow left x (y ∷ s) [] row h = absurd row
    step_from-IsRow left x (y ∷ s) (b ∷ kw) row h = (
      h,
      omega (arith, next_cell_lem c b x y left row.0 (IsRow-head y s kw row.2) h),
      step_from-IsRow (next_cell k c b x y left) y s kw row.2
          (omega (arith, next_cell_lem c b x y left row.0 (IsRow-head y s kw row.2) h)),
    )

    -- After the step no rest costs more than before it with the byte.
    pub step_from_upper :
        (w : Bytes) (left x : ℕ) (s : State) (kw : Bytes)
        → IsRow (cap k) x s kw
        → left ≤ cap k
        → left ≤ x + 1
        → cost left (step_from k c left x s kw) kw w ≤ cost x s kw (c ∷ w)
    unfolding step_from
    step_from_upper w left x [] [] row fits h = omega (arith, dist-nil w, dist-nil (c ∷ w))
    step_from_upper w left x [] (b ∷ kw) row fits h = absurd row
    step_from_upper w left x (y ∷ s) [] row fits h = absurd row
    step_from_upper w left x (y ∷ s) (b ∷ kw) row fits h =
        let v = next_cell_lem c b x y left row.0 (IsRow-head y s kw row.2) fits in
        omega (
          arith,
          v,
          dist_step c b w kw,
          step_from_upper w (next_cell k c b x y left) y s kw row.2 (omega (arith, v))
              (omega (arith, v)),
          cost-le (next_cell k c b x y left) (step_from k c (next_cell k c b x y left) y s kw) kw w,
          cost-le y s kw (c ∷ w),
        )

    -- And no rest costs less, up to a bound that no cell exceeds.
    pub step_from_lower :
        (w : Bytes) (bound left x : ℕ) (s : State) (kw : Bytes)
        → IsRow (cap k) x s kw
        → left ≤ cap k
        → bound ≤ cap k
        → bound ≤ left + dist w kw
        → bound ≤ cost x s kw (c ∷ w)
        → bound ≤ cost left (step_from k c left x s kw) kw w
    unfolding step_from
    step_from_lower w bound left x [] [] row fits h l r = l
    step_from_lower w bound left x [] (b ∷ kw) row fits h l r = absurd row
    step_from_lower w bound left x (y ∷ s) [] row fits h l r = absurd row
    step_from_lower w bound left x (y ∷ s) (b ∷ kw) row fits h l r =
        let v = next_cell_lem c b x y left row.0 (IsRow-head y s kw row.2) fits in
        omega (
          arith,
          step_from_lower w bound (next_cell k c b x y left) y s kw row.2 (omega (arith, v)) h
              (omega (
                arith,
                v,
                dist_step c b w kw,
                dist-cons_right b w kw,
                dist-cons_left c w kw,
                cost-le y s kw (c ∷ w),
              ))
              (omega arith),
        )
