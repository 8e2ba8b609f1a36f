-- ===== src/Levenshtein.antt =====
-- levenshtein/automata.go: the terms of a sorted token table within an edit distance of a keyword,
-- found by an automaton whose states are rows of the distance table.
pub mod Distance
pub mod Row
pub mod Automaton
pub mod Term
use textiplex.Prelude.{
  ℕ, zero, suc, ◌+◌, ◌-◌, ◌%◌, Bool, true, false, not, ◌&&◌, ◌||◌, Option, none, some, List, [],
  ◌∷◌, ◌++◌, length, get_elem?, take, ltb, leb, ◌==◌, if◌then◌else◌, ◌>>=◌,
}
use textiplex.Prelude.Int.{ℤ, pos, negsuc}
use textiplex.Bytes.{Bytes}
use textiplex.Storage.Headers.{Token, RawValue, bytes}
use textiplex.Storage.Tokens.{Tokens, get_bytes_or_near}

abbrev pub max_levenshtein_length : ℕ
max_levenshtein_length = 60

abbrev pub default_m : ℤ
default_m = pos 10

pub record Levenshtein : Type 0 where
  pub k : ℕ
  pub m : ℤ
  pub keyword : Bytes
  pub tokens : Tokens

-- `New`, with `none` for nil.
unfoldable pub new : ℤ → ℤ → Bytes → Tokens → Option Levenshtein
new (negsuc _) m keyword tokens = none
new (pos k) m keyword tokens =
    if ltb 3 k || leb max_levenshtein_length (length keyword)
    then none
    else some (record { k = k; m = m; keyword = keyword; tokens = tokens })

-- Cells are bytes.
abbrev pub State : Type 0
State = List ℕ

unfoldable pub add8 : ℕ → ℕ → ℕ
add8 a b = (a + b) % 256

unfoldable pub cap : ℕ → ℕ
cap k = (k + 1) % 256

-- The row for the empty input, from cell `i` on.
unfoldable pub start_from : ℕ → ℕ → Bytes → State
start_from k i [] = (if leb i k then i % 256 else cap k) ∷ []
start_from k i (b ∷ keyword) = (if leb i k then i % 256 else cap k) ∷ start_from k (i + 1) keyword

abbrev at_most : ℕ → ℕ → ℕ
at_most limit v = if ltb limit v then limit else v

abbrev lower : ℕ → ℕ → ℕ
lower x v = if ltb x v then x else v

-- The cell `next[i]`, from `prev[i-1]`, `prev[i]` and `next[i-1]`.
unfoldable pub next_cell : ℕ → ℕ → ℕ → ℕ → ℕ → ℕ → ℕ
unfolding cap add8
next_cell k c b diagonal above left =
    let cost : ℕ = if c == b then 0 else 1 in
    let v = add8 diagonal cost in at_most (cap k) (lower (add8 left 1) (lower (add8 above 1) v))

-- The loop of `Step`. A row has one cell more than the keyword has bytes.
unfoldable pub step_from : ℕ → ℕ → ℕ → ℕ → State → Bytes → State
unfolding next_cell
step_from k c left diagonal (above ∷ prev) (b ∷ keyword) =
    let v = next_cell k c b diagonal above left in v ∷ step_from k c v above prev keyword
step_from k c left diagonal _ _ = []

unfoldable pub first_cell : ℕ → ℕ → ℕ
unfolding cap add8
first_cell k v = if ltb (add8 v 1) (cap k) then add8 v 1 else cap k

module _ (a : Levenshtein) where
  -- `Start`
  unfoldable pub start : State
  unfolding start_from
  start = start_from a.k 0 a.keyword

  -- `Step`. No row is empty.
  unfoldable pub step : State → ℕ → State
  unfolding first_cell step_from
  step [] c = []
  step (v ∷ prev) c = first_cell a.k v ∷ step_from a.k c (first_cell a.k v) v prev a.keyword

  -- `Accept`: the last cell is at most `k`.
  unfoldable pub accept : State → Bool
  accept [] = false
  accept (v ∷ []) = leb v a.k
  accept (v ∷ w ∷ s) = accept (w ∷ s)

  -- `Dead`
  unfoldable pub dead : State → Bool
  dead [] = true
  dead (v ∷ s) = if leb v a.k then false else dead s

  -- The loop of `SmallestTransition`, over the `n` bytes from `x` on.
  unfoldable pub transition_from : State → ℕ → ℕ → Option ℕ
  unfolding step dead
  transition_from s zero x = none
  transition_from s (suc n) x =
      if not (dead (step s x)) then some x else transition_from s n (x + 1)

  -- `SmallestTransition`
  unfoldable pub smallest_transition : State → ℕ → Option ℕ
  unfolding transition_from
  smallest_transition s lb = transition_from s (256 - lb) lb

  abbrev lower_byte : Bytes → ℕ → ℕ
  lower_byte key at = elim (get_elem? key at) [ none ↦ 0 | some b ↦ b + 1 ]

  -- One round of `NextSeek`. The result `some none` goes on to the next position.
  abbrev pub seek_at : List State → Bytes → ℕ → Option (Option Bytes)
  seek_at stack key at =
      if ltb 0xFF (lower_byte key at)
      then some none
      else get_elem? stack at >>= λ s. some (elim (smallest_transition s (lower_byte key at)) [
        | none ↦ none
        | some b ↦ some (take at key ++ b ∷ [])
      ])

  -- `NextSeek`, with `some none` for nil.
  unfoldable pub next_seek : List State → Bytes → ℕ → Option (Option Bytes)
  unfolding smallest_transition
  next_seek stack key zero = seek_at stack key zero
  next_seek stack key (suc at) =
      let rest = next_seek stack key at in
      seek_at stack key (suc at) >>= λ found. elim found [
        | some out ↦ some (some out)
        | none ↦ rest
      ]

  -- The loop over a term's bytes: the states behind `s`, and how many bytes were matched. `n` bytes
  -- are left from index `i` on.
  unfoldable pub consume : ℕ → State → ℕ → Bytes → Option (List State × ℕ)
  unfolding step dead
  consume zero s i store = some (s ∷ [], i)
  consume (suc n) s i store = get_elem? store i >>= λ c.
      (let rest = consume n (step s c) (i + 1) store in
        if dead (step s c)
        then some (s ∷ [], i)
        else rest >>= λ (stack, matched). some (s ∷ stack, matched))

  abbrev pub accepted : List State → ℕ → RawValue → Option Bool
  accepted stack matched value =
      get_elem? stack matched >>= λ s. some (matched == value.size && accept s)

  -- `a.m > 0 && count >= a.m`
  abbrev pub reached : ℤ → ℕ → Bool
  reached (pos zero) count = false
  reached (pos (suc n)) count = leb (suc n) count
  reached (negsuc n) count = false

  -- The loop of `Matches`, as the list of what it yields. Each round seeks further into the table;
  -- `fuel` bounds the rounds.
  unfoldable pub matches_loop : ℕ → Bytes → ℕ → Option (List Token)
  unfolding start accept next_seek consume get_bytes_or_near
  matches_loop zero seek count = none
  matches_loop (suc fuel) seek count = get_bytes_or_near a.tokens seek >>= λ found. elim found [
    | none ↦ some []
    | some key ↦
        (consume key.value.size start 0 key.value.store >>= λ (stack, matched).
        accepted stack matched key.value >>= λ hit.
        (let go_on : ℕ → Option (List Token) = λ n.
            next_seek stack (bytes key.value) matched >>= λ next. elim next [
              | none ↦ some []
              | some s ↦ matches_loop fuel s n
            ] in
          elim hit [
            | false ↦ go_on count
            | true ↦ elim (reached a.m (count + 1)) [
              | true ↦ some (key ∷ [])
              | false ↦ go_on (count + 1) >>= λ rest. some (key ∷ rest)
            ]
          ]))
  ]

  unfoldable pub matches : Option (List Token)
  unfolding matches_loop
  matches = matches_loop (length a.tokens + 1) [] 0
