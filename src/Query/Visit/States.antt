-- ===== src/Query/Visit/States.antt =====
-- The states that a clause hands to its function, as a list, and the two walks as folds over it.
use textiplex.Prelude.{
  ℕ, ◌≡◌, refl, ◌∙◌, ap, Bool, true, false, ◌||◌, Option, none, some, List, [], ◌∷◌, ◌++◌, ◌>>=◌,
  bind-eq-some, Option-cases, inl, inr, arith,
}
use mathlib.Core.Option.{some-injective}
use textiplex.Storage.Headers.{Token}
use textiplex.Storage.Segment.{Field, Fields, lookup_field}
use textiplex.Query.Clause.{Clause, ClauseEntry, ClauseState, Keyword, Range, Searcher}
use textiplex.Query.Visit.{
  keyword_tokens, field_keyword_tokens, field_range_tokens, cond_fields, cond_keywords,
  cond_field_keywords, cond_field_ranges, iter_cond,
}

module _ {S : Type 0} where
  abbrev pub fold_until :
      (ClauseState → S → Option (S × Bool)) → List ClauseState → S → Option (S × Bool)
  fold_until handle [] st = some (st, true)
  fold_until handle (x ∷ xs) st = handle x st >>= λ (st, next). elim next [
    | false ↦ some (st, false)
    | true ↦ fold_until handle xs st
  ]

  abbrev pub fold_all : (ClauseState → S → Option S) → List ClauseState → S → Option S
  fold_all handle [] st = some st
  fold_all handle (x ∷ xs) st = handle x st >>= λ st. fold_all handle xs st

  fold_until-append :
      (handle : ClauseState → S → Option (S × Bool)) (xs ys : List ClauseState) (st : S)
      → fold_until handle (xs ++ ys) st ≡ (
          fold_until handle xs st >>= λ (st, next). elim next [
            | false ↦ some (st, false)
            | true ↦ fold_until handle ys st
          ])
  fold_until-append handle [] ys st = refl
  fold_until-append handle (x ∷ xs) ys st = elim (Option-cases (handle x st)) [
    | inl e ↦ rw e refl
    | inr ((st', true), e) ↦ rw e (fold_until-append handle xs ys st')
    | inr ((st', false), e) ↦ rw e refl
  ]

  pub fold_all-append :
      (handle : ClauseState → S → Option S) (xs ys : List ClauseState) (st : S)
      → fold_all handle (xs ++ ys) st ≡ (fold_all handle xs st >>= λ st. fold_all handle ys st)
  fold_all-append handle [] ys st = refl
  fold_all-append handle (x ∷ xs) ys st = elim (Option-cases (handle x st)) [
    | inl e ↦ rw e refl
    | inr (st', e) ↦ rw e (fold_all-append handle xs ys st')
  ]

module _ (s : Searcher) where
  abbrev pub with_state : Keyword → Field → List Token → List ClauseState → List ClauseState
  with_state kw f [] rest = rest
  with_state kw f (t ∷ ts) rest =
      record { boost = kw.boost; field = some f; tokens = t ∷ ts } ∷ rest

  abbrev pub field_states : Keyword → Fields → Option (List ClauseState)
  field_states kw [] = some []
  field_states kw ((h, f) ∷ fs) = keyword_tokens s kw f.tokens >>= λ tokens.
      field_states kw fs >>= λ rest. some (with_state kw f tokens rest)

  -- A keyword that no field has is one state without tokens.
  abbrev pub or_missing : Keyword → List ClauseState → List ClauseState
  or_missing kw [] = record { boost = kw.boost; field = none; tokens = [] } ∷ []
  or_missing kw (x ∷ xs) = x ∷ xs

  abbrev pub keyword_states : (List Keyword → Fields) → List Keyword → Option (List ClauseState)
  keyword_states visit [] = some []
  keyword_states visit (kw ∷ kws) = field_states kw (visit (kw ∷ kws)) >>= λ l.
      keyword_states visit kws >>= λ rest. some (or_missing kw l ++ rest)

  abbrev pub field_keyword_states : List (ClauseEntry Keyword) → Option (List ClauseState)
  field_keyword_states [] = some []
  field_keyword_states (e ∷ es) =
      let f : Option Field = lookup_field e.field_hash s.storage.fields in
      field_keyword_tokens s e.value f >>= λ tokens. field_keyword_states es >>= λ rest.
      some (record { boost = e.value.boost; field = f; tokens = tokens } ∷ rest)

  abbrev pub field_range_states : List (ClauseEntry Range) → Option (List ClauseState)
  field_range_states [] = some []
  field_range_states (e ∷ es) =
      let f : Option Field = lookup_field e.field_hash s.storage.fields in
      field_range_tokens e.value f >>= λ tokens. field_range_states es >>= λ rest.
      some (record { boost = e.value.boost; field = f; tokens = tokens } ∷ rest)

  -- One state for each field that has a keyword's token, or one without tokens, and one for each
  -- clause on a field.
  abbrev pub states : (List Keyword → Fields) → Clause → Option (List ClauseState)
  states visit c = keyword_states visit c.keywords >>= λ xs.
      field_keyword_states c.field_keywords >>= λ ys.
      field_range_states c.field_ranges >>= λ zs. some (xs ++ (ys ++ zs))

pub or_true : (b : Bool) → (b || true) ≡ true
or_true true = refl
or_true false = refl

abbrev is_cons : List ClauseState → Bool
is_cons [] = false
is_cons (x ∷ xs) = true

module _ (s : Searcher) {S : Type 0} (handle : ClauseState → S → Option (S × Bool)) where
  abbrev fields_result : List ClauseState → Bool → S → Option (S × Bool × Bool)
  fields_result l found st =
      fold_until handle l st >>= λ (st, next). some (st, found || is_cons l, next)

  cond_fields_cons :
      (kw : Keyword) (k : ℕ) (f : Field) (fs : Fields) (tokens : List Token)
      (rest : List ClauseState) (found : Bool) (st : S)
      → keyword_tokens s kw f.tokens ≡ some tokens
      → ((found : Bool) (st : S)
          → cond_fields s handle kw fs found st ≡ fields_result rest found st)
      → cond_fields s handle kw ((k, f) ∷ fs) found st
        ≡ fields_result (with_state s kw f tokens rest) found st
  unfolding cond_fields
  cond_fields_cons kw k f fs [] rest found st e later = rw e (later found st)
  cond_fields_cons kw k f fs (t ∷ ts) rest found st e later =
      let state : ClauseState = record { boost = kw.boost; field = some f; tokens = t ∷ ts } in
      rw e (elim (Option-cases (handle state st)) [
        | inl g ↦ rw g refl
        | inr ((st', true), g) ↦ rw (g, later true st', or_true found) refl
        | inr ((st', false), g) ↦ rw (g, or_true found) refl
      ])

  cond_fields-eq-fold :
      (kw : Keyword) (fs : Fields) (l : List ClauseState) (found : Bool) (st : S)
      → field_states s kw fs ≡ some l
      → cond_fields s handle kw fs found st ≡ fields_result l found st
  unfolding cond_fields
  cond_fields-eq-fold kw [] l found st h = ground arith
  cond_fields-eq-fold kw ((k, f) ∷ fs) l found st h =
      let (tokens, read, h2) = bind-eq-some (keyword_tokens s kw f.tokens) _ h in
      let (rest, later, made) = bind-eq-some (field_states s kw fs) _ h2 in
      cond_fields_cons kw k f fs tokens rest found st read
        (λ found st. cond_fields-eq-fold kw fs rest found st later)
      ∙ ap (λ l. fields_result l found st) (some-injective _ _ made)

  cond_field_keywords-eq-fold :
      (es : List (ClauseEntry Keyword)) (l : List ClauseState) (st : S)
      → field_keyword_states s es ≡ some l
      → cond_field_keywords s handle es st ≡ fold_until handle l st
  unfolding cond_field_keywords
  cond_field_keywords-eq-fold [] l st h = ground arith
  cond_field_keywords-eq-fold (e ∷ es) l st h =
      let f : Option Field = lookup_field e.field_hash s.storage.fields in
      let (tokens, read, h2) = bind-eq-some (field_keyword_tokens s e.value f) _ h in
      let (rest, later, made) = bind-eq-some (field_keyword_states s es) _ h2 in
      let state : ClauseState = record { boost = e.value.boost; field = f; tokens = tokens } in
      rw (read, ← some-injective _ _ made)
        (elim (Option-cases (handle state st)) [
          | inl g ↦ rw g refl
          | inr ((st', true), g) ↦ rw g (cond_field_keywords-eq-fold es rest st' later)
          | inr ((st', false), g) ↦ rw g refl
        ])

  cond_field_ranges-eq-fold :
      (es : List (ClauseEntry Range)) (l : List ClauseState) (st : S)
      → field_range_states s es ≡ some l
      → cond_field_ranges s handle es st ≡ fold_until handle l st
  unfolding cond_field_ranges
  cond_field_ranges-eq-fold [] l st h = ground arith
  cond_field_ranges-eq-fold (e ∷ es) l st h =
      let f : Option Field = lookup_field e.field_hash s.storage.fields in
      let (tokens, read, h2) = bind-eq-some (field_range_tokens e.value f) _ h in
      let (rest, later, made) = bind-eq-some (field_range_states s es) _ h2 in
      let state : ClauseState = record { boost = e.value.boost; field = f; tokens = tokens } in
      rw (read, ← some-injective _ _ made)
        (elim (Option-cases (handle state st)) [
          | inl g ↦ rw g refl
          | inr ((st', true), g) ↦ rw g (cond_field_ranges-eq-fold es rest st' later)
          | inr ((st', false), g) ↦ rw g refl
        ])

  cond_keywords_cons :
      (visit : List Keyword → Fields) (kw : Keyword) (kws : List Keyword)
      (here rest : List ClauseState) (st : S)
      → field_states s kw (visit (kw ∷ kws)) ≡ some here
      → ((st : S) → cond_keywords s handle visit kws st ≡ fold_until handle rest st)
      → cond_keywords s handle visit (kw ∷ kws) st
        ≡ fold_until handle (or_missing s kw here ++ rest) st
  unfolding cond_keywords
  cond_keywords_cons visit kw kws [] rest st read later =
      let state : ClauseState = record { boost = kw.boost; field = none; tokens = [] } in
      rw (cond_fields-eq-fold kw (visit (kw ∷ kws)) [] false st read)
        (elim (Option-cases (handle state st)) [
          | inl g ↦ rw g refl
          | inr ((st', true), g) ↦ rw g (later st')
          | inr ((st', false), g) ↦ rw g refl
        ])
  cond_keywords_cons visit kw kws (x ∷ xs) rest st read later =
      rw
        (
          cond_fields-eq-fold kw (visit (kw ∷ kws)) (x ∷ xs) false st read,
          fold_until-append handle (x ∷ xs) rest st,
        )
        (elim (Option-cases (fold_until handle (x ∷ xs) st)) [
          | inl g ↦ rw g refl
          | inr ((st', true), g) ↦ rw g (later st')
          | inr ((st', false), g) ↦ rw g refl
        ])

  cond_keywords-eq-fold :
      (visit : List Keyword → Fields) (kws : List Keyword) (l : List ClauseState) (st : S)
      → keyword_states s visit kws ≡ some l
      → cond_keywords s handle visit kws st ≡ fold_until handle l st
  unfolding cond_keywords
  cond_keywords-eq-fold visit [] l st h = ground arith
  cond_keywords-eq-fold visit (kw ∷ kws) l st h =
      let (here, read, h2) = bind-eq-some (field_states s kw (visit (kw ∷ kws))) _ h in
      let (rest, later, made) = bind-eq-some (keyword_states s visit kws) _ h2 in
      cond_keywords_cons visit kw kws here rest st read
        (λ st. cond_keywords-eq-fold visit kws rest st later)
      ∙ ap (λ l. fold_until handle l st) (some-injective _ _ made)

  cond_clause :
      (visit : List Keyword → Fields) (c : Clause) (xs ys zs : List ClauseState) (st : S)
      → keyword_states s visit c.keywords ≡ some xs
      → field_keyword_states s c.field_keywords ≡ some ys
      → field_range_states s c.field_ranges ≡ some zs
      → iter_cond s handle visit c st ≡ fold_until handle (xs ++ (ys ++ zs)) st
  unfolding iter_cond
  cond_clause visit c xs ys zs st h h2 h3 =
      rw (cond_keywords-eq-fold visit c.keywords xs st h, fold_until-append handle xs (ys ++ zs) st)
        (elim (Option-cases (fold_until handle xs st)) [
          | inl g ↦ rw g refl
          | inr ((st', false), g) ↦ rw g refl
          | inr ((st', true), g) ↦
              rw
                (
                  g,
                  cond_field_keywords-eq-fold c.field_keywords ys st' h2,
                  fold_until-append handle ys zs st',
                )
                (elim (Option-cases (fold_until handle ys st')) [
                  | inl k ↦ rw k refl
                  | inr ((st'', false), k) ↦ rw k refl
                  | inr ((st'', true), k) ↦
                      rw k (cond_field_ranges-eq-fold c.field_ranges zs st'' h3)
                ])
        ])

  -- When the states of a clause can all be computed, for any order in which each keyword
  -- visits the fields, `IterCond` hands them to its function in order, until the function
  -- says to stop.
  pub iter_cond-eq-fold :
      (visit : List Keyword → Fields) (c : Clause) (l : List ClauseState) (st : S)
      → states s visit c ≡ some l
      → iter_cond s handle visit c st ≡ fold_until handle l st
  iter_cond-eq-fold visit c l st h =
      let (xs, read, h2) = bind-eq-some (keyword_states s visit c.keywords) _ h in
      let (ys, read2, h3) = bind-eq-some (field_keyword_states s c.field_keywords) _ h2 in
      let (zs, read3, made) = bind-eq-some (field_range_states s c.field_ranges) _ h3 in
      cond_clause visit c xs ys zs st read read2 read3
      ∙ ap (λ l. fold_until handle l st) (some-injective _ _ made)
