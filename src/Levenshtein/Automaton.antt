-- ===== src/Levenshtein/Automaton.antt =====
-- What the automaton decides: it accepts the terms within `k` edits of the keyword, and a dead
-- state has no such term ahead.
use textiplex.Prelude.{
  ℕ, ◌+◌, ◌≤◌, ◌<◌, ◌≡◌, ◌↔◌, [], ◌∷◌, ◌++◌, true, min, leb, Bool-cases, inl, inr, arith,
}
use mathlib.Core.List.{append-nil}
use textiplex.Bytes.{Bytes}
use textiplex.Levenshtein.{
  Levenshtein, State, cap, first_cell, start_from, start, step, accept, dead,
}
use textiplex.Levenshtein.Distance.{dist, dist-cons_left, dist-cons_right}
use textiplex.Levenshtein.Row.{
  cost, IsRow, IsRow-head, cost-le, cap_lem, first_cell_lem, step_from-IsRow, step_from_upper,
  step_from_lower,
}

abbrev row_cost : State → Bytes → Bytes → ℕ
row_cost [] kw w = 0
row_cost (x ∷ s) kw w = cost x s kw w

abbrev Fits : ℕ → State → Bytes → Type 0
Fits top [] kw = ⊥
Fits top (x ∷ s) kw = IsRow top x s kw

module _ (k : ℕ) (small : k ≤ 3) where
  start_from-Fits : (i : ℕ) (kw : Bytes) → Fits (cap k) (start_from k i kw) kw
  unfolding start_from cap
  start_from-Fits i [] = ground arith
  start_from-Fits i (b ∷ []) = (ground arith, ground arith, start_from-Fits (i + 1) [])
  start_from-Fits i (b ∷ d ∷ kw) = (ground arith, ground arith, start_from-Fits (i + 1) (d ∷ kw))

  start_from_lower :
      (w : Bytes) (i : ℕ) (kw : Bytes)
      → min (k + 1) (i + dist w kw) ≤ row_cost (start_from k i kw) kw w
  unfolding start_from cap
  start_from_lower w i [] = ground arith
  start_from_lower w i (b ∷ []) =
      ground (arith, start_from_lower w (i + 1) [], dist-cons_right b w [])
  start_from_lower w i (b ∷ d ∷ kw) =
      ground (arith, start_from_lower w (i + 1) (d ∷ kw), dist-cons_right b w (d ∷ kw))

  start_from_upper : (w : Bytes) (kw : Bytes) → row_cost (start_from k 0 kw) kw w ≤ dist w kw
  unfolding start_from cap
  start_from_upper w [] = ground arith
  start_from_upper w (b ∷ []) = ground arith
  start_from_upper w (b ∷ d ∷ kw) = ground arith

-- The states along a term.
abbrev pub run : Levenshtein → State → Bytes → State
run a s [] = s
run a s (c ∷ w) = run a (step a s c) w

module _ (a : Levenshtein) (small : a.k ≤ 3) where
  step-Fits :
      (s : State) (c : ℕ) → Fits (cap a.k) s a.keyword → Fits (cap a.k) (step a s c) a.keyword
  unfolding step
  step-Fits [] c row = row
  step-Fits (x ∷ s) c row =
      step_from-IsRow a.k small c (first_cell a.k x) x s a.keyword row
        (omega (arith, first_cell_lem a.k small x (IsRow-head x s a.keyword row)))

  step_iff :
      (s : State) (c : ℕ) (w : Bytes)
      → Fits (cap a.k) s a.keyword
      → (row_cost (step a s c) a.keyword w ≤ a.k) ↔ (row_cost s a.keyword (c ∷ w) ≤ a.k)
  unfolding step
  step_iff [] c w row = absurd row
  step_iff (x ∷ s) c w row =
      let first = first_cell_lem a.k small x (IsRow-head x s a.keyword row) in
      ground (
        arith,
        first,
        cap_lem a.k small,
        step_from_upper a.k small c w (first_cell a.k x) x s a.keyword row,
        step_from_lower a.k small c w (a.k + 1) (first_cell a.k x) x s a.keyword row,
        cost-le x s a.keyword (c ∷ w),
        dist-cons_left c w a.keyword,
      )

  run-Fits :
      (s : State) (w : Bytes) → Fits (cap a.k) s a.keyword → Fits (cap a.k) (run a s w) a.keyword
  run-Fits s [] row = row
  run-Fits s (c ∷ w) row = run-Fits (step a s c) w (step-Fits s c row)

  run_iff :
      (s : State) (w rest : Bytes)
      → Fits (cap a.k) s a.keyword
      → (row_cost (run a s w) a.keyword rest ≤ a.k) ↔ (row_cost s a.keyword (w ++ rest) ≤ a.k)
  run_iff s [] rest row = ground arith
  run_iff s (c ∷ w) rest row =
      ground (arith, run_iff (step a s c) w rest (step-Fits s c row), step_iff s c (w ++ rest) row)

-- The last cell is the cost of the empty rest.
accept_from :
    (a : Levenshtein) (top x : ℕ) (s : State) (kw : Bytes)
    → IsRow top x s kw
    → (accept a (x ∷ s) ≡ true) ↔ (cost x s kw [] ≤ a.k)
unfolding accept dist
accept_from a top x [] [] row = ground arith
accept_from a top x [] (b ∷ kw) row = absurd row
accept_from a top x (y ∷ s) [] row = absurd row
accept_from a top x (y ∷ s) (b ∷ kw) row =
    ground (arith, accept_from a top y s kw row.2, cost-le y s kw [])

-- A dead row is too far from everything.
dead_from :
    (a : Levenshtein) (top x : ℕ) (s : State) (kw w : Bytes)
    → IsRow top x s kw
    → dead a (x ∷ s) ≡ true
    → a.k < cost x s kw w
unfolding dead
dead_from a top x [] [] w row h = ground arith
dead_from a top x [] (b ∷ kw) w row h = absurd row
dead_from a top x (y ∷ s) [] w row h = absurd row
dead_from a top x (y ∷ s) (b ∷ kw) w row h = elim (Bool-cases (leb x a.k)) [
  | inl e ↦ ground arith
  | inr e ↦ ground (arith, dead_from a top y s kw w row.2 (ground (arith, e)))
]

accept_row :
    (a : Levenshtein) (top : ℕ) (s : State) (kw : Bytes)
    → Fits top s kw
    → (accept a s ≡ true) ↔ (row_cost s kw [] ≤ a.k)
accept_row a top [] kw row = absurd row
accept_row a top (x ∷ s) kw row = accept_from a top x s kw row

dead_row :
    (a : Levenshtein) (top : ℕ) (s : State) (kw w : Bytes)
    → Fits top s kw
    → dead a s ≡ true
    → a.k < row_cost s kw w
dead_row a top [] kw w row h = absurd row
dead_row a top (x ∷ s) kw w row h = dead_from a top x s kw w row h

module _ (a : Levenshtein) (small : a.k ≤ 3) where
  start-Fits : Fits (cap a.k) (start a) a.keyword
  unfolding start
  start-Fits = start_from-Fits a.k small 0 a.keyword

  start_iff : (w : Bytes) → (row_cost (start a) a.keyword w ≤ a.k) ↔ (dist w a.keyword ≤ a.k)
  unfolding start
  start_iff w =
      ground
        (arith, start_from_upper a.k small w a.keyword, start_from_lower a.k small w 0 a.keyword)

  -- For `k` up to 3, the state that a term's bytes lead to from the start is accepted
  -- exactly if the term is within `k` insertions, removals and replacements of the keyword.
  pub accept-eq-dist : (w : Bytes) → accept a (run a (start a) w) ≡ leb (dist w a.keyword) a.k
  accept-eq-dist w = ground (
    arith,
    accept_row a (cap a.k) (run a (start a) w) a.keyword (run-Fits a small (start a) w start-Fits),
    run_iff a small (start a) w [] start-Fits,
    start_iff w,
    append-nil w,
  )

  -- For `k` up to 3, when the state after some bytes is dead, every term that starts with
  -- them is more than `k` edits away from the keyword.
  pub dead-far : (p w : Bytes) → dead a (run a (start a) p) ≡ true → a.k < dist (p ++ w) a.keyword
  dead-far p w h = ground (
    arith,
    dead_row a (cap a.k) (run a (start a) p) a.keyword w (run-Fits a small (start a) p start-Fits)
        h,
    run_iff a small (start a) p w start-Fits,
    start_iff (p ++ w),
  )
