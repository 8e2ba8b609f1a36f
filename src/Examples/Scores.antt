-- ===== src/Examples/Scores.antt =====
-- Scores of three documents.
use textiplex.Prelude.{
  ℕ, ◌+◌, ◌≡◌, refl, some, true, false, List, [], ◌∷◌, drop, map, ◌==◌, if◌then◌else◌, arith,
}
use textiplex.Search.Chain.{find?}
use textiplex.Search.Partition.{rank}
use textiplex.Query.Scoring.{Score, index_below, index_is, add_score, get_score, reset_scores}
use textiplex.Query.Scoring.Updates.{
  IsAscending, value_of, raise_at, add_score-eq-map, get_score-eq-find?,
}
use textiplex.Query.Scoring.Added.{get_score-add_score}
use textiplex.Examples.Bits.{bits, bits-IsRoaring}

abbrev score : ℕ → ℕ → Score
score i v = record { index = i; value = v }

abbrev scores : List Score
scores = score 1 5 ∷ score 4 6 ∷ score 9 7 ∷ []

abbrev add : ℕ → ℕ → ℕ
add a b = a + b

scores-IsAscending : IsAscending scores
scores-IsAscending = ((omega arith, (omega arith, tt)), ((omega arith, tt), (tt, tt)))

add_score_example :
    add_score add 1 9 3 scores
    ≡ some (map (raise_at 9 add 3) scores, 1 + rank (index_below 9) (drop 1 scores))
add_score_example =
    add_score-eq-map 9 add 3 1 scores (score 9 7) scores-IsAscending (omega arith) refl

get_score_example : get_score 1 4 scores ≡ some (value_of 4 (find? (index_is 4) (drop 1 scores)))
get_score_example = get_score-eq-find? 4 1 scores scores-IsAscending (omega arith)

get_score-add_score_example :
    (s : List Score) × (guess : ℕ) × (add_score add 0 1 5
        (reset_scores bits (false ∷ true ∷ true ∷ []))
      ≡ some (s, guess))
    × (get_score 0 2 s ≡ some (if 2 == 1 then add 0 5 else 0))
get_score-add_score_example =
    get_score-add_score add 1 5 bits bits-IsRoaring (false ∷ true ∷ true ∷ []) 2 refl
