-- ===== src/Examples/Building.antt =====
-- Segments built from two documents, with a tree that is a sorted list.
use textiplex.Prelude.{
  ℕ, ◌+◌, ◌≡◌, refl, Option, none, some, List, [], ◌∷◌, Ordering, All, Ordering-cases, inl, inr,
}
use textiplex.Bytes.{compare_bytes, is_eq}
use textiplex.Search.Chain.{find?}
use textiplex.Storage.Headers.{Float32, raw_value_from}
use textiplex.Storage.Merge.Context.{Round}
use textiplex.Storage.Merge.Assemble.{SegmentFile, merge}
use textiplex.Storage.Merge.Whole.{IsWhole}
use textiplex.Storage.Merge.Result.{Follows}
use textiplex.Storage.Build.{
  BTree, PostingData, Document, FieldDefinition, TokenDefinition, Accumulators, build_from,
}
use textiplex.Storage.Segment.{Storage}
use textiplex.Storage.File.Load.{zero_storage}
use textiplex.Storage.Build.Laws.{IsBTree, IsRange}
use textiplex.Storage.Build.Whole.{build_from-IsWhole}
use textiplex.Storage.Build.Merged.{merge-build_from}
use textiplex.Examples.Bits.{bits, bits-IsRoaring}

abbrev insert_data : List PostingData → PostingData → List PostingData
insert_data [] p = p ∷ []
insert_data (q ∷ qs) p = elim (compare_bytes p.value q.value) [
  | Ordering.lt ↦ p ∷ q ∷ qs
  | Ordering.eq ↦ p ∷ qs
  | Ordering.gt ↦ q ∷ insert_data qs p
]

abbrev sorted_list : BTree
sorted_list = record {
  Tree = List PostingData;
  empty = [];
  get = λ t v. find? (λ p. is_eq (compare_bytes p.value v)) t;
  set = insert_data;
  items = λ t. t;
}

abbrev average : ℕ → ℕ → Float32
average total count = total + count

abbrev visit_order : Accumulators sorted_list → Accumulators sorted_list
visit_order accs = accs

abbrev name_field : List (Option TokenDefinition) → FieldDefinition
name_field tokens = record { hash = 7; tokens = tokens; length = 2 }

abbrev first_document : Document
first_document = record {
  id = record { value = raw_value_from (49 ∷ []) };
  fields =
      name_field (
        some (record { value = 98 ∷ []; frequency = 1 })
        ∷ none
        ∷ some (record { value = 97 ∷ []; frequency = 1 })
        ∷ [])
      ∷ [];
}

abbrev second_document : Document
second_document = record {
  id = record { value = raw_value_from (50 ∷ []) };
  fields = name_field (some (record { value = 98 ∷ []; frequency = 2 }) ∷ []) ∷ [];
}

insert_data-All :
    (P : PostingData → Type 0) (t : List PostingData) (p : PostingData)
    → All P t
    → P p
    → All P (insert_data t p)
insert_data-All P [] p h k = (k, tt)
insert_data-All P (q ∷ qs) p h k = elim (Ordering-cases (compare_bytes p.value q.value)) [
  | inl e ↦ rw (e, All) (k, h)
  | inr (inl e) ↦ rw (e, All) (k, h.1)
  | inr (inr e) ↦ rw (e, All) (h.0, insert_data-All P qs p h.1 k)
]

sorted_list-IsBTree : IsBTree sorted_list
sorted_list-IsBTree = record { items-empty = refl; items-set = insert_data-All }

visit_order-IsRange : IsRange sorted_list visit_order
visit_order-IsRange = record { all_visited = λ P accs h. h; once = λ accs h. h }

-- What a load that failed behind the documents leaves.
abbrev left : Storage
left = record zero_storage { documents_ids = (first_document.id) ∷ [] }

build_from_example :
    IsWhole
      (build_from sorted_list bits average visit_order left (first_document ∷ second_document ∷ []))
build_from_example =
    build_from-IsWhole bits bits-IsRoaring sorted_list average visit_order left
      (first_document ∷ second_document ∷ []) (inr refl)

abbrev built : Document → Storage
built doc = build_from sorted_list bits average visit_order zero_storage (doc ∷ [])

merge-build_from_example :
    (file : SegmentFile) × (merge bits average (built first_document) (built second_document)
      ≡ some file)
    × ((rs : List Round) × Follows bits average
          (built first_document)
          (built second_document)
          rs
          file)
merge-build_from_example =
    merge-build_from sorted_list bits average visit_order visit_order-IsRange bits-IsRoaring
      sorted_list-IsBTree zero_storage zero_storage (first_document ∷ []) (second_document ∷ [])
      (inr refl) (inr refl)
