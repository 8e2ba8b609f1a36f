-- ===== src/Query/Visit.antt =====
-- `Iter` and `IterCond` of query/clause.go: which tokens of which fields a clause reaches, in order,
-- handed to a function of the caller.
pub mod States
pub mod Walk
use textiplex.Prelude.{
  ℕ, Bool, true, false, not, ◌&&◌, Option, none, some, List, [], ◌∷◌, if◌then◌else◌, ◌>>=◌,
}
use textiplex.Prelude.Int.{ℤ, min_ℤ, is_positive, is_zero}
use textiplex.Levenshtein.{default_m, new, matches}
use textiplex.Storage.Headers.{Token}
use textiplex.Storage.Tokens.{Tokens, get_bytes}
use textiplex.Storage.Segment.{Field, Fields, lookup_field}
use textiplex.Query.Clause.{Clause, ClauseEntry, ClauseState, Keyword, Range, Searcher}
use textiplex.Query.Range.{range_tokens}

-- The inner block that both functions write out twice: the token itself, or else those nearby.
unfoldable pub keyword_tokens : Searcher → Keyword → Tokens → Option (List Token)
keyword_tokens s kw tokens = get_bytes tokens kw.value >>= λ found. elim found [
  | some token ↦ some (token ∷ [])
  | none ↦
      (let k : ℤ = min_ℤ s.levenshtein_max_k kw.fuzzy in
        let m : ℤ = if is_zero s.levenshtein_m then default_m else s.levenshtein_m in
        (if is_positive k && is_positive m
          then (new k m kw.value tokens >>= λ automata. matches automata)
          else some []))
]

unfoldable pub field_keyword_tokens : Searcher → Keyword → Option Field → Option (List Token)
unfolding keyword_tokens
field_keyword_tokens s kw none = some []
field_keyword_tokens s kw (some f) = keyword_tokens s kw f.tokens

unfoldable pub field_range_tokens : Range → Option Field → Option (List Token)
unfolding range_tokens
field_range_tokens r none = some []
field_range_tokens r (some f) = range_tokens f.tokens r

module _ (s : Searcher) {S : Type 0} where
  module _ (handle : ClauseState → S → Option S) where
    -- `if len(state.Tokens) != 0 { handle(&state) }`
    abbrev pub handle_nonempty : ClauseState → S → Option S
    handle_nonempty state st = elim state.tokens [ [] ↦ some st | t ∷ ts ↦ handle state st ]

    unfoldable pub iter_fields : Keyword → Fields → S → Option S
    unfolding keyword_tokens
    iter_fields kw [] st = some st
    iter_fields kw ((h, f) ∷ fs) st = keyword_tokens s kw f.tokens >>= λ tokens.
        handle_nonempty (record { boost = kw.boost; field = some f; tokens = tokens }) st >>= λ st.
        iter_fields kw fs st

    -- `visit` is the order in which a `range` visits the fields, anew for each keyword: the keywords
    -- that are left tell the rounds apart.
    unfoldable pub iter_keywords : (List Keyword → Fields) → List Keyword → S → Option S
    unfolding iter_fields
    iter_keywords visit [] st = some st
    iter_keywords visit (kw ∷ kws) st =
        iter_fields kw (visit (kw ∷ kws)) st >>= λ st. iter_keywords visit kws st

    unfoldable pub iter_field_keywords : List (ClauseEntry Keyword) → S → Option S
    unfolding field_keyword_tokens lookup_field
    iter_field_keywords [] st = some st
    iter_field_keywords (e ∷ es) st =
        let f : Option Field = lookup_field e.field_hash s.storage.fields in
        field_keyword_tokens s e.value f >>= λ tokens.
        handle_nonempty (record { boost = e.value.boost; field = f; tokens = tokens }) st >>= λ st.
        iter_field_keywords es st

    unfoldable pub iter_field_ranges : List (ClauseEntry Range) → S → Option S
    unfolding field_range_tokens lookup_field
    iter_field_ranges [] st = some st
    iter_field_ranges (e ∷ es) st =
        let f : Option Field = lookup_field e.field_hash s.storage.fields in
        field_range_tokens e.value f >>= λ tokens.
        handle_nonempty (record { boost = e.value.boost; field = f; tokens = tokens }) st >>= λ st.
        iter_field_ranges es st

    -- `Iter`
    unfoldable pub iter : (List Keyword → Fields) → Clause → S → Option S
    unfolding iter_keywords iter_field_keywords iter_field_ranges
    iter visit c st = iter_keywords visit c.keywords st >>= λ st.
        iter_field_keywords c.field_keywords st >>= λ st. iter_field_ranges c.field_ranges st

  -- The handler's second result is `next`: whether to go on.
  module _ (handle : ClauseState → S → Option (S × Bool)) where
    -- The loop over the fields, with `found` and whether to go on.
    unfoldable pub cond_fields : Keyword → Fields → Bool → S → Option (S × Bool × Bool)
    unfolding keyword_tokens
    cond_fields kw [] found st = some (st, found, true)
    cond_fields kw ((h, f) ∷ fs) found st = keyword_tokens s kw f.tokens >>= λ tokens. elim tokens [
      | [] ↦ cond_fields kw fs found st
      | t ∷ ts ↦
          handle (record { boost = kw.boost; field = some f; tokens = t ∷ ts }) st >>= λ (st, next).
          elim next [ false ↦ some (st, true, false) | true ↦ cond_fields kw fs true st ]
    ]

    unfoldable pub cond_keywords : (List Keyword → Fields) → List Keyword → S → Option (S × Bool)
    unfolding cond_fields
    cond_keywords visit [] st = some (st, true)
    cond_keywords visit (kw ∷ kws) st =
        cond_fields kw (visit (kw ∷ kws)) false st >>= λ (st, found, next). elim next [
          | false ↦ some (st, false)
          | true ↦ elim found [
            | true ↦ cond_keywords visit kws st
            | false ↦
                handle (record { boost = kw.boost; field = none; tokens = [] }) st >>= λ (st, next).
                elim next [ false ↦ some (st, false) | true ↦ cond_keywords visit kws st ]
          ]
        ]

    unfoldable pub cond_field_keywords : List (ClauseEntry Keyword) → S → Option (S × Bool)
    unfolding field_keyword_tokens lookup_field
    cond_field_keywords [] st = some (st, true)
    cond_field_keywords (e ∷ es) st =
        let f : Option Field = lookup_field e.field_hash s.storage.fields in
        field_keyword_tokens s e.value f >>= λ tokens.
        handle (record { boost = e.value.boost; field = f; tokens = tokens }) st >>= λ (st, next).
        elim next [ false ↦ some (st, false) | true ↦ cond_field_keywords es st ]

    unfoldable pub cond_field_ranges : List (ClauseEntry Range) → S → Option (S × Bool)
    unfolding field_range_tokens lookup_field
    cond_field_ranges [] st = some (st, true)
    cond_field_ranges (e ∷ es) st =
        let f : Option Field = lookup_field e.field_hash s.storage.fields in
        field_range_tokens e.value f >>= λ tokens.
        handle (record { boost = e.value.boost; field = f; tokens = tokens }) st >>= λ (st, next).
        elim next [ false ↦ some (st, false) | true ↦ cond_field_ranges es st ]

    -- `IterCond`
    unfoldable pub iter_cond : (List Keyword → Fields) → Clause → S → Option (S × Bool)
    unfolding cond_keywords cond_field_keywords cond_field_ranges
    iter_cond visit c st = cond_keywords visit c.keywords st >>= λ (st, next). elim next [
      | false ↦ some (st, false)
      | true ↦ cond_field_keywords c.field_keywords st >>= λ (st, next). elim next [
        | false ↦ some (st, false)
        | true ↦ cond_field_ranges c.field_ranges st
      ]
    ]
