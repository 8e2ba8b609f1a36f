-- ===== src/Examples/Searching.antt =====
-- Searches on a small storage, and what the theorems say of them.
use textiplex.Prelude.{
  List, ℕ, ◌+◌, ◌-◌, ◌≡◌, ◌<◌, ◌++◌, ◌||◌, refl, Bool, false, not, Option, some, [], ◌∷◌, length,
  take, drop, keep, leb, if◌then◌else◌, arith,
}
use textiplex.Prelude.Int.{pos}
use textiplex.Bytes.{compare_bytes}
use textiplex.Roaring.{contains}
use textiplex.Search.{binary_search}
use textiplex.Search.Chain.{find?}
use textiplex.Search.Partition.{rank}
use textiplex.Storage.Tokens.{
  value_below, value_is, get_bytes, get_bytes_or_near, iter_bytes, binary_search_bytes,
}
use textiplex.Storage.Tokens.Lookup.{get_bytes-eq-find?, get_bytes_or_near-eq-find?}
use textiplex.Storage.Tokens.Iterate.{iter_bytes-eq-take}
use textiplex.Storage.Segment.{Fields, get_posting_list}
use textiplex.Levenshtein.{Levenshtein, accept, start, dead, step}
use textiplex.Levenshtein.{consume, accepted}
use textiplex.Levenshtein.Term.{accepted-eq-dist}
use textiplex.Prelude.{◌>>=◌}
use textiplex.Storage.Headers.{RawValue, bytes}
use textiplex.Levenshtein.Distance.{dist}
use textiplex.Levenshtein.Automaton.{run, accept-eq-dist, dead-far}
use textiplex.Query.Clause.{
  Keyword, Clause, ClauseState, Searcher, SimpleQuery, Range, capture_none,
}
use textiplex.Query.Range.{range_tokens, in_range, range_tokens-eq-keep}
use textiplex.Query.Visit.{iter, iter_cond, keyword_tokens, handle_nonempty}
use textiplex.Query.Visit.States.{fold_until, fold_all, states, iter_cond-eq-fold}
use textiplex.Query.Visit.Walk.{iter-eq-fold}
use textiplex.Query.Filter.{filter_documents}
use textiplex.Query.Filter.Documents.{is_match, filter_documents-is_match}
use textiplex.Examples.Bits.{bits, bits-IsRoaring}
use textiplex.Examples.Merging.{token, field, storage_b, tokens_b, tokens_b-IsSorted}

get_bytes_example : get_bytes tokens_b (99 ∷ []) ≡ some (find? (value_is (99 ∷ [])) tokens_b)
get_bytes_example = get_bytes-eq-find? (99 ∷ []) tokens_b tokens_b-IsSorted

get_bytes_or_near_example :
    get_bytes_or_near tokens_b (97 ∷ [])
    ≡ some (find? (λ t. not (value_below (97 ∷ []) t)) tokens_b)
get_bytes_or_near_example = get_bytes_or_near-eq-find? (97 ∷ []) tokens_b tokens_b-IsSorted

iter_bytes_example :
    iter_bytes tokens_b (some (97 ∷ [])) (some (98 ∷ []))
    ≡ some (
        if leb 2 (rank (value_below (97 ∷ [])) tokens_b)
          || leb 2 (rank (value_below (98 ∷ [])) tokens_b)
        then []
        else take
            (rank (value_below (98 ∷ [])) tokens_b + 1 - rank (value_below (97 ∷ [])) tokens_b)
            (drop (rank (value_below (97 ∷ [])) tokens_b) tokens_b))
iter_bytes_example = iter_bytes-eq-take (97 ∷ []) (98 ∷ []) tokens_b tokens_b-IsSorted (omega arith)

abbrev above_b : Range
above_b = record { capture_mode = capture_none; boost = 0; low = 98 ∷ []; high = 99 ∷ [] }

range_tokens_example :
    range_tokens tokens_b above_b
    ≡ some (
        if leb 2 (rank (value_below (99 ∷ [])) tokens_b)
        then []
        else keep (in_range capture_none (98 ∷ []) (99 ∷ [])) tokens_b)
range_tokens_example =
    range_tokens-eq-keep tokens_b above_b (98 ∷ []) (99 ∷ []) tokens_b-IsSorted (omega arith) refl
      refl

abbrev automaton : Levenshtein
automaton = record { k = 1; m = pos 10; keyword = 98 ∷ 99 ∷ []; tokens = tokens_b }

accept_example :
    accept automaton (run automaton (start automaton) (99 ∷ []))
    ≡ leb (dist (99 ∷ []) (98 ∷ 99 ∷ [])) 1
accept_example = accept-eq-dist automaton (omega arith) (99 ∷ [])

dead_example : 1 < dist ((97 ∷ 97 ∷ 97 ∷ 97 ∷ []) ++ 99 ∷ []) (98 ∷ 99 ∷ [])
unfolding dead start step
dead_example = dead-far automaton (omega arith) (97 ∷ 97 ∷ 97 ∷ 97 ∷ []) (99 ∷ []) refl

abbrev visit : List Keyword → Fields
visit kws = storage_b.fields

abbrev searcher : Searcher
searcher = record { storage = storage_b; levenshtein_m = pos 0; levenshtein_max_k = pos 1 }

abbrev must_c : Clause
must_c = record {
  keywords = record { boost = 0; fuzzy = pos 1; value = 99 ∷ [] } ∷ [];
  field_keywords = [];
  field_ranges = [];
}

abbrev no_clause : Clause
no_clause = record { keywords = []; field_keywords = []; field_ranges = [] }

abbrev state_c : ClauseState
state_c = record { boost = 0; field = some (field tokens_b); tokens = token (99 ∷ []) 1 1 1 ∷ [] }

states_c : states searcher visit must_c ≡ some (state_c ∷ [])
unfolding keyword_tokens get_bytes compare_bytes bytes binary_search_bytes binary_search
states_c = refl

abbrev tally : ClauseState → ℕ → Option (ℕ × Bool)
tally state n = some (n + length state.tokens, false)

iter_cond_example : iter_cond searcher tally visit must_c 0 ≡ fold_until tally (state_c ∷ []) 0
iter_cond_example = iter_cond-eq-fold searcher tally visit must_c (state_c ∷ []) 0 states_c

abbrev sum : ClauseState → ℕ → Option ℕ
sum state n = some (n + length state.tokens)

iter_example :
    iter searcher sum visit must_c 0 ≡ fold_all (handle_nonempty searcher sum) (state_c ∷ []) 0
iter_example = iter-eq-fold searcher sum visit must_c (state_c ∷ []) 0 states_c

abbrev query_c : SimpleQuery
query_c = record { shoulds = no_clause; musts = must_c; must_nots = no_clause }

filter_documents_example :
    (b : bits.Bitmap) × (filter_documents bits searcher visit visit visit query_c [] ≡ some b)
    × ((x : ℕ)
        → contains bits b x ≡ is_match bits bits-IsRoaring searcher query_c (state_c ∷ []) [] [] x)
unfolding get_posting_list
filter_documents_example =
    filter_documents-is_match bits bits-IsRoaring searcher visit visit visit query_c (state_c ∷ [])
      [] [] states_c refl refl (((record { bytes = 7 ∷ 1 ∷ [] }, refl), tt), tt) tt tt

abbrev value_c : RawValue
value_c = record { size = 1; store = 99 ∷ 0 ∷ [] }

accepted_example :
    (consume automaton 1 (start automaton) 0 (99 ∷ 0 ∷ []) >>= λ (stack, matched).
    accepted automaton stack matched value_c)
    ≡ some (leb (dist (bytes value_c) (98 ∷ 99 ∷ [])) 1)
accepted_example = accepted-eq-dist automaton value_c (omega arith) (omega arith) (omega arith)
