-- ===== src/Levenshtein/Term.antt =====
-- What `Matches` decides of the term it looks at.
use textiplex.Prelude.{
  ℕ, zero, suc, ◌+◌, ◌≤◌, ◌<◌, ◌≡◌, ◌⊎◌, refl, ap, true, some, List, [], ◌∷◌, ◌++◌, ◌>>=◌, length,
  get_elem?, get_elem?_total, take, drop, leb, min, Bool-cases, inl, inr, arith,
}
use textiplex.Bytes.{Bytes}
use textiplex.Storage.Headers.{RawValue, bytes}
use textiplex.Levenshtein.{Levenshtein, State, start, step, dead, consume, accepted}
use textiplex.Levenshtein.Distance.{dist}
use textiplex.Levenshtein.Automaton.{run, accept-eq-dist, dead-far}

drop-get_elem? :
    (i : ℕ) (xs : List ℕ) (c : ℕ) → get_elem? xs i ≡ some c → drop i xs ≡ c ∷ drop (i + 1) xs
drop-get_elem? i [] c e = ground arith
drop-get_elem? zero (x ∷ xs) c e = ground arith
drop-get_elem? (suc i) (x ∷ xs) c e = ground (arith, drop-get_elem? i xs c e)

take_more : (m n : ℕ) (xs : List ℕ) → m ≤ n → (w : List ℕ) × (take n xs ≡ take m xs ++ w)
take_more zero n xs h = (take n xs, refl)
take_more (suc m) zero xs h = absurd (omega arith)
take_more (suc m) (suc n) [] h = ([], refl)
take_more (suc m) (suc n) (x ∷ xs) h =
    let (w, e) = take_more m n xs (omega arith) in (w, ap (λ l. x ∷ l) e)

add_zero : (i : ℕ) → i ≡ i + 0
add_zero i = omega arith

zero_add : (d : ℕ) → 0 + d ≡ d
zero_add d = omega arith

add_suc : (i d : ℕ) → i + 1 + d ≡ i + suc d
add_suc i d = omega arith

module _ (a : Levenshtein) where
  -- The loop over the bytes stops at the end, or where the next state is dead.
  abbrev Stops : ℕ → State → Bytes → ℕ → Type 0
  Stops n s w d = (d ≡ n) ⊎ ((d < n) × (dead a (run a s (take (suc d) w)) ≡ true))

  further :
      (s : State) {n d c : ℕ} {w rest : Bytes}
      → w ≡ c ∷ rest
      → Stops n (step a s c) rest d
      → Stops (suc n) s w (suc d)
  further s e (inl same) = inl (ap suc same)
  further s e (inr (less, end)) = inr (omega arith, rw e end)

  consume_lem :
      (n : ℕ) (s : State) (i : ℕ) (store : Bytes)
      → i + n ≤ length store
      → (stack : List State) × (d : ℕ) × (consume a n s i store ≡ some (stack, i + d))
        × (get_elem? stack d ≡ some (run a s (take d (drop i store))))
        × Stops n s (drop i store) d
  unfolding consume
  consume_lem zero s i store h =
      (s ∷ [], 0, ap (λ m. some (s ∷ [], m)) (add_zero i), refl, inl refl)
  consume_lem (suc n) s i store h =
      let (c, read) = get_elem?_total store i (omega arith) in
      let here = drop-get_elem? i store c read in
      elim (Bool-cases (dead a (step a s c))) [
        | inl e ↦ (
          s ∷ [],
          0,
          rw (read, e) (ap (λ m. some (s ∷ [], m)) (add_zero i)),
          refl,
          inr (omega arith, rw here e),
        )
        | inr e ↦
            (let (stack, d, rest, top, stops) =
                consume_lem n (step a s c) (i + 1) store (omega arith) in
              (
                s ∷ stack,
                suc d,
                rw (read, e, rest) (ap (λ m. some (s ∷ stack, m)) (add_suc i d)),
                rw here top,
                further s here stops,
              ))
      ]

decided :
    (a : Levenshtein) (n : ℕ) (store : Bytes) (stack : List State) (d : ℕ) (v : RawValue)
    → a.k ≤ 3
    → v.size ≡ n
    → get_elem? stack d ≡ some (run a (start a) (take d store))
    → Stops a n (start a) store d
    → accepted a stack d v ≡ some (leb (dist (take n store) a.keyword) a.k)
decided a n store stack d v small size top (inl same) =
    rw (top, size, ← same, accept-eq-dist a small (take d store)) (ground arith)
decided a n store stack d v small size top (inr (less, end)) =
    let (w, e) = take_more (suc d) n store less in
    let far = dead-far a small (take (suc d) store) w end in
    rw (top, size) (ground (arith, less, far, e))

-- For `k` up to 3 and a value whose bytes are all there: the loop of `Matches` over the bytes
-- of a term returns, and the term counts as a match exactly if it is within `k` insertions,
-- removals and replacements of the keyword.
pub accepted-eq-dist :
    (a : Levenshtein) (v : RawValue)
    → a.k ≤ 3
    → v.size ≤ 128
    → v.size ≤ length v.store
    → (consume a v.size (start a) 0 v.store >>= λ (stack, matched). accepted a stack matched v)
      ≡ some (leb (dist (bytes v) a.keyword) a.k)
unfolding bytes
accepted-eq-dist a v small fits whole =
    let (stack, d, done, top, stops) = consume_lem a v.size (start a) 0 v.store (omega arith) in
    let size : min 128 v.size ≡ v.size = omega arith in
    rw (done, size, zero_add d) (decided a v.size v.store stack d v small refl top stops)
