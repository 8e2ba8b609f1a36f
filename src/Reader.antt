-- ===== src/Reader.antt =====
-- `Reader.Query` of reader.go: the ids that it yields from the sorted scores.
use textiplex.Prelude.{
  ℕ, zero, suc, ◌+◌, ◌-◌, ◌%◌, ◌^◌, ◌≤◌, ◌<◌, ◌≡◌, refl, sym, ap, Bool, true, false, ◌||◌, Option,
  none, some, List, [], ◌∷◌, length, map, take, drop, take_all, length-drop, All, min, leb, le→leb,
  get_elem?, get_elem?_total, slice, ◌==◌, if◌then◌else◌, ◌>>=◌, Bool-cases, inl, inr, arith,
}
use mathlib.Core.List.{reverse, reverse_aux}
use textiplex.Bytes.{Bytes}
use textiplex.Storage.Headers.{Float32, DocumentId, bytes}
use textiplex.Query.Scoring.{Score}

-- `score.Value == 0`, which both zeros of `float32` are.
abbrev pub is_zero_value : Float32 → Bool
is_zero_value v = v == 0 || v == 2 ^ 31

-- The loop over the scores, for a caller that takes all that it yields.
unfoldable pub yield_ids : List DocumentId → List Score → Option (List Bytes)
yield_ids ids [] = some []
yield_ids ids (score ∷ scores) =
    let rest = yield_ids ids scores in
    if is_zero_value score.value
    then some []
    else get_elem? ids score.index >>= λ id. rest >>= λ yielded. some (bytes id.value ∷ yielded)

-- `max(uint(len(scores))-skip, 0)`, where the difference of two `uint` wraps around.
abbrev pub backward_end : ℕ → List Score → ℕ
backward_end skip scores = (length scores + 2 ^ 64 - skip) % 2 ^ 64

-- The scores that are left of the sorted ones behind `skip`, in the order of the loop. Their array
-- has no room behind them.
unfoldable pub page : ℕ → Bool → List Score → Option (List Score)
page skip reversed scores =
    if reversed
    then (slice scores 0 (backward_end skip scores) >>= λ s. some (reverse s))
    else slice scores (min skip (length scores)) (length scores)

-- `Query` behind `ResolveScores`.
unfoldable pub query_ids : List DocumentId → ℕ → Bool → List Score → Option (List Bytes)
query_ids ids skip reversed scores = page skip reversed scores >>= λ s. yield_ids ids s

-- The scores before the first zero.
unfoldable pub positive : List Score → List Score
positive [] = []
positive (score ∷ scores) = if is_zero_value score.value then [] else score ∷ positive scores

unfoldable pub id_of : List DocumentId → Score → Bytes
id_of ids score = elim (get_elem? ids score.index) [ none ↦ [] | some id ↦ bytes id.value ]

id_of_lem :
    (ids : List DocumentId) (score : Score) (id : DocumentId)
    → get_elem? ids score.index ≡ some id
    → bytes id.value ≡ id_of ids score
unfolding id_of
id_of_lem ids score id e = rw (e, id_of) refl

yield_ids-eq-map :
    (ids : List DocumentId) (scores : List Score)
    → All (λ score. score.index < length ids) scores
    → yield_ids ids scores ≡ some (map (id_of ids) (positive scores))
unfolding yield_ids positive
yield_ids-eq-map ids [] h = refl
yield_ids-eq-map ids (score ∷ scores) h = elim (Bool-cases (is_zero_value score.value)) [
  | inl over ↦ rw over refl
  | inr other ↦
      let (id, e) = get_elem?_total ids score.index h.0 in
      rw (other, e, yield_ids-eq-map ids scores h.1)
        (ap (λ b. some (b ∷ map (id_of ids) (positive scores))) (id_of_lem ids score id e))
]

module _ {A : Type 0} (P : A → Type 0) where
  All-drop : (n : ℕ) (xs : List A) → All P xs → All P (drop n xs)
  All-drop zero xs h = h
  All-drop (suc n) [] h = tt
  All-drop (suc n) (x ∷ xs) h = All-drop n xs h.1

  All-take : (n : ℕ) (xs : List A) → All P xs → All P (take n xs)
  All-take zero xs h = tt
  All-take (suc n) [] h = tt
  All-take (suc n) (x ∷ xs) h = (h.0, All-take n xs h.1)

  All-reverse_aux : (xs ys : List A) → All P xs → All P ys → All P (reverse_aux xs ys)
  All-reverse_aux [] ys h k = k
  All-reverse_aux (x ∷ xs) ys h k = All-reverse_aux xs (x ∷ ys) h.1 (h.0, k)

-- The sorted scores behind `skip` of them, from the front or from the back.
unfoldable pub behind : ℕ → Bool → List Score → List Score
behind skip true scores = reverse (take (length scores - skip) scores)
behind skip false scores = drop skip scores

All-behind :
    (P : Score → Type 0) (skip : ℕ) (reversed : Bool) (scores : List Score)
    → All P scores
    → All P (behind skip reversed scores)
unfolding behind
All-behind P skip true scores h =
    All-reverse_aux P (take (length scores - skip) scores) []
      (All-take P (length scores - skip) scores h) tt
All-behind P skip false scores h = All-drop P skip scores h

slice_front :
    (n : ℕ) (scores : List Score) → n ≤ length scores → slice scores 0 n ≡ some (take n scores)
slice_front n scores h =
    let whole : n - 0 ≡ n = omega arith in
    rw (le→leb 0 n (omega arith), le→leb n (length scores) h) (ap (λ m. some (take m scores)) whole)

slice_back :
    (n : ℕ) (scores : List Score)
    → n ≤ length scores
    → slice scores n (length scores) ≡ some (drop n scores)
slice_back n scores h =
    rw
      (
        le→leb n (length scores) h,
        le→leb (length scores) (length scores) (omega arith),
        sym (length-drop n scores),
        take_all (drop n scores),
      )
      refl

page-eq-behind :
    (skip : ℕ) (reversed : Bool) (scores : List Score)
    → skip ≤ length scores
    → length scores < 2 ^ 64
    → page skip reversed scores ≡ some (behind skip reversed scores)
unfolding page behind
page-eq-behind skip true scores h w =
    let exact : backward_end skip scores ≡ length scores - skip =
      wrapped skip (length scores) h w in
    rw (exact, slice_front (length scores - skip) scores (omega arith)) refl
  where
    wrapped : (skip n : ℕ) → skip ≤ n → n < 2 ^ 64 → (n + 2 ^ 64 - skip) % 2 ^ 64 ≡ n - skip
    wrapped skip n h w = omega (arith, h, w)
page-eq-behind skip false scores h w =
    let exact : min skip (length scores) ≡ skip = ground (arith, h) in
    rw (exact, slice_back skip scores h) refl

-- For sorted scores whose documents the storage all has, fewer than 2^64, and a `skip` that is
-- at most their number: `Query` yields, of the scores behind the first `skip`, or with
-- `reverse` behind the last `skip` and from the last to the first, the ids of the documents
-- before the first score that is zero, and none after it, so that with `reverse` a last score
-- of zero leaves no id at all.
pub query_ids-eq-map :
    (ids : List DocumentId) (skip : ℕ) (reversed : Bool) (scores : List Score)
    → skip ≤ length scores
    → length scores < 2 ^ 64
    → All (λ score. score.index < length ids) scores
    → query_ids ids skip reversed scores
      ≡ some (map (id_of ids) (positive (behind skip reversed scores)))
unfolding query_ids
query_ids-eq-map ids skip reversed scores h w range = rw (page-eq-behind skip reversed scores h w) (
    yield_ids-eq-map ids (behind skip reversed scores)
      (All-behind (λ score. score.index < length ids) skip reversed scores range))

-- With `reverse` and a `skip` that is above the number of scores and below 2^64, `Query`
-- panics.
pub query_ids-panics :
    (ids : List DocumentId) (skip : ℕ) (scores : List Score)
    → length scores < skip
    → skip < 2 ^ 64
    → query_ids ids skip true scores ≡ none
unfolding query_ids page
query_ids-panics ids skip scores h w =
    rw (above skip (length scores) h w, le→leb 0 (backward_end skip scores) (omega arith)) refl
  where
    above : (skip n : ℕ) → n < skip → skip < 2 ^ 64 → leb ((n + 2 ^ 64 - skip) % 2 ^ 64) n ≡ false
    above skip n h w = ground (arith, h, w)
