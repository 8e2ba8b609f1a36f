-- ===== src/Query/Scoring.antt =====
-- `Scoring` of query/clause.go: the scores of the matching documents, in the order of their indexes.
pub mod Updates
pub mod Added
use textiplex.Prelude.{
  ℕ, ◌+◌, Bool, Option, none, some, List, [], ◌∷◌, ltb, ◌==◌, length, map, get_elem?, set, slice,
  if◌then◌else◌, ◌>>=◌,
}
use textiplex.Roaring.{Roaring}
use textiplex.Search.{search, found_at}
use textiplex.Storage.Headers.{Float32}

pub record Score : Type 0 where
  pub index : ℕ
  pub value : Float32

abbrev pub index_below : ℕ → Score → Bool
index_below idx s = ltb s.index idx

abbrev pub index_is : ℕ → Score → Bool
index_is idx s = s.index == idx

-- The Go slice `s.Scores[guess:]`.
abbrev pub sub_scores : ℕ → List Score → Option (List Score)
sub_scores guess scores = slice scores guess (length scores)

-- `Scoring.Reset`
unfoldable pub reset_scores : (r : Roaring) → r.Bitmap → List Score
reset_scores r src = map (λ i. record { index = i; value = 0 }) (r.to_array src)

-- `Scoring.BinarySearch`
unfoldable pub search_score : ℕ → ℕ → List Score → Option (ℕ × Bool)
search_score guess doc_idx scores = sub_scores guess scores >>= λ sub.
    search (index_below doc_idx) sub >>= λ i. some (i, found_at (index_is doc_idx) sub i)

-- `Scoring.Get`
unfoldable pub get_score : ℕ → ℕ → List Score → Option Float32
get_score guess idx scores = sub_scores guess scores >>= λ sub.
    search (index_below idx) sub >>= λ i.
    some (elim (get_elem? sub i) [ none ↦ 0 | some x ↦ if x.index == idx then x.value else 0 ])

-- The sum of two `float32` is the processor's.
module _ (add_float : Float32 → Float32 → Float32) where
  abbrev pub raised : Float32 → Score → Score
  raised score x = record x { value = add_float x.value score }

  -- `Scoring.Add`, with the new scores and the position for the next guess.
  unfoldable pub add_score : ℕ → ℕ → Float32 → List Score → Option (List Score × ℕ)
  add_score guess idx score scores = sub_scores guess scores >>= λ sub.
      search (index_below idx) sub >>= λ i.
      get_elem? sub i >>= λ x. some (set scores (guess + i) (raised score x), guess + i)
