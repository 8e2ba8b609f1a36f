-- ===== src/Examples/Paging.antt =====
-- The ids of three documents, one of which has the score 0.
use textiplex.Prelude.{◌≡◌, refl, true, none, some, List, [], ◌∷◌, map, arith}
use textiplex.Storage.Headers.{DocumentId, raw_value_from, bytes}
use textiplex.Query.Scoring.{Score}
use textiplex.Reader.{
  query_ids, page, yield_ids, behind, positive, id_of, query_ids-eq-map, query_ids-panics,
}

abbrev ids : List DocumentId
ids =
    record { value = raw_value_from (97 ∷ []) }
    ∷ record { value = raw_value_from (98 ∷ []) }
    ∷ record { value = raw_value_from (99 ∷ []) }
    ∷ []

abbrev scores : List Score
scores =
    record { index = 2; value = 9 }
    ∷ record { index = 0; value = 4 }
    ∷ record { index = 1; value = 0 }
    ∷ []

query_ids_example :
    query_ids ids 1 true scores ≡ some (map (id_of ids) (positive (behind 1 true scores)))
query_ids_example =
    query_ids-eq-map ids 1 true scores (omega arith) (omega arith)
      (omega arith, (omega arith, (omega arith, tt)))

query_ids-panics_example : query_ids ids 4 true scores ≡ none
query_ids-panics_example = query_ids-panics ids 4 scores (omega arith) (omega arith)

second_first : query_ids ids 1 true scores ≡ some ((97 ∷ []) ∷ (99 ∷ []) ∷ [])
unfolding query_ids page yield_ids bytes raw_value_from
second_first = refl
