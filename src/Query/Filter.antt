-- ===== src/Query/Filter.antt =====
-- query/searcher_filter.go: the documents that a query matches.
pub mod Matching
pub mod Counts
pub mod Documents
use textiplex.Prelude.{
  ℕ, Bool, true, false, not, ◌&&◌, Option, none, some, List, [], ◌∷◌, ◌++◌, ltb, if◌then◌else◌,
  ◌>>=◌,
}
use textiplex.Roaring.{Roaring}
use textiplex.Storage.Headers.{Token}
use textiplex.Storage.Segment.{Fields, get_posting_list, unsafe_bitmap}
use textiplex.Query.Clause.{Keyword, ClauseState, SimpleQuery, Searcher, count}
use textiplex.Query.Visit.{iter, iter_cond}

module _ (r : Roaring) (s : Searcher) where
  -- The loop over `state.Tokens` that adds posting lists to a bitmap.
  unfoldable pub or_tokens : List Token → r.Bitmap → Option r.Bitmap
  unfolding get_posting_list unsafe_bitmap
  or_tokens [] b = some b
  or_tokens (t ∷ ts) b = get_posting_list s.storage.posting_lists t.posting_list_index >>= λ l.
      or_tokens ts (r.or b (unsafe_bitmap r l))

  -- And the one that takes them away.
  unfoldable pub and_not_tokens : List Token → r.Bitmap → Option r.Bitmap
  unfolding get_posting_list unsafe_bitmap
  and_not_tokens [] b = some b
  and_not_tokens (t ∷ ts) b = get_posting_list s.storage.posting_lists t.posting_list_index >>= λ l.
      and_not_tokens ts (r.and_not b (unsafe_bitmap r l))

  -- The function handed to `IterCond` for the clauses that must match. A bitmap of the pool is
  -- empty.
  unfoldable pub collect_must : ClauseState → List r.Bitmap → Option (List r.Bitmap × Bool)
  unfolding or_tokens
  collect_must state bitmaps = elim state.tokens [
    | [] ↦ some ([], false)
    | t ∷ ts ↦ or_tokens (t ∷ ts) r.empty >>= λ b. some (bitmaps ++ b ∷ [], true)
  ]

  unfoldable pub remove_must_not : ClauseState → r.Bitmap → Option (r.Bitmap × Bool)
  unfolding and_not_tokens
  remove_must_not state bitmap =
      and_not_tokens state.tokens bitmap >>= λ b. some (b, not (r.is_empty b))

  abbrev pub intersect : r.Bitmap → List r.Bitmap → r.Bitmap
  intersect bitmap [] = bitmap
  intersect bitmap (b ∷ bs) = r.fast_and (b ∷ bs)

  unfoldable pub candidates :
      (visit_musts visit_shoulds : List Keyword → Fields) → SimpleQuery → r.Bitmap → Option r.Bitmap
  unfolding count iter iter_cond or_tokens collect_must
  candidates visit_musts visit_shoulds q bitmap =
      if ltb 0 (count q.musts)
      then (iter_cond s collect_must visit_musts q.musts [] >>= λ (bitmaps, next).
          some (intersect bitmap bitmaps))
      else (if ltb 0 (count q.shoulds)
          then iter s (λ state b. or_tokens state.tokens b) visit_shoulds q.shoulds bitmap
          else some bitmap)

  -- `FilterDocuments`, on the bitmap of the context. The three orders are those in which the
  -- clauses visit the fields.
  unfoldable pub filter_documents :
      (visit_musts visit_shoulds visit_must_nots : List Keyword → Fields)
      → SimpleQuery
      → r.Bitmap
      → Option r.Bitmap
  unfolding candidates remove_must_not
  filter_documents visit_musts visit_shoulds visit_must_nots q bitmap =
      candidates visit_musts visit_shoulds q bitmap >>= λ b.
      if ltb 0 (count q.must_nots) && ltb 0 (r.cardinality b)
      then (iter_cond s remove_must_not visit_must_nots q.must_nots b >>= λ (b, next). some b)
      else some b
