-- ===== src/Query/Visit/Walk.antt =====
-- `Iter` hands over the same states as `IterCond`, less those without tokens.
use textiplex.Prelude.{
  ℕ, ◌≡◌, refl, ◌∙◌, ap, Option, some, List, [], ◌∷◌, ◌++◌, ◌>>=◌, bind-eq-some, Option-cases, inl,
  inr, arith,
}
use mathlib.Core.Option.{some-injective}
use textiplex.Storage.Headers.{Token}
use textiplex.Storage.Segment.{Field, Fields, lookup_field}
use textiplex.Query.Clause.{Clause, ClauseEntry, ClauseState, Keyword, Range, Searcher}
use textiplex.Query.Visit.{
  keyword_tokens, field_keyword_tokens, field_range_tokens, handle_nonempty, iter_fields,
  iter_keywords, iter_field_keywords, iter_field_ranges, iter,
}
use textiplex.Query.Visit.States.{
  fold_all, fold_all-append, field_states, keyword_states, field_keyword_states, field_range_states,
  states, with_state, or_missing,
}

module _ (s : Searcher) {S : Type 0} (handle : ClauseState → S → Option S) where
  abbrev walk : List ClauseState → S → Option S
  walk = fold_all (handle_nonempty s handle)

  iter_fields_cons :
      (kw : Keyword) (k : ℕ) (f : Field) (fs : Fields) (tokens : List Token)
      (rest : List ClauseState) (st : S)
      → keyword_tokens s kw f.tokens ≡ some tokens
      → ((st : S) → iter_fields s handle kw fs st ≡ walk rest st)
      → iter_fields s handle kw ((k, f) ∷ fs) st ≡ walk (with_state s kw f tokens rest) st
  unfolding iter_fields
  iter_fields_cons kw k f fs [] rest st e later = rw e (later st)
  iter_fields_cons kw k f fs (t ∷ ts) rest st e later =
      let state : ClauseState = record { boost = kw.boost; field = some f; tokens = t ∷ ts } in
      rw e (elim (Option-cases (handle state st)) [
        | inl g ↦ rw g refl
        | inr (st', g) ↦ rw g (later st')
      ])

  iter_fields-eq-walk :
      (kw : Keyword) (fs : Fields) (l : List ClauseState) (st : S)
      → field_states s kw fs ≡ some l
      → iter_fields s handle kw fs st ≡ walk l st
  unfolding iter_fields
  iter_fields-eq-walk kw [] l st h = ground arith
  iter_fields-eq-walk kw ((k, f) ∷ fs) l st h =
      let (tokens, read, h2) = bind-eq-some (keyword_tokens s kw f.tokens) _ h in
      let (rest, later, made) = bind-eq-some (field_states s kw fs) _ h2 in
      iter_fields_cons kw k f fs tokens rest st read (λ st. iter_fields-eq-walk kw fs rest st later)
      ∙ ap (λ l. walk l st) (some-injective _ _ made)

  walk-or_missing :
      (kw : Keyword) (here rest : List ClauseState) (st : S)
      → walk (or_missing s kw here ++ rest) st ≡ (walk here st >>= λ st. walk rest st)
  walk-or_missing kw [] rest st = refl
  walk-or_missing kw (x ∷ xs) rest st = fold_all-append (handle_nonempty s handle) (x ∷ xs) rest st

  iter_keywords-eq-walk :
      (visit : List Keyword → Fields) (kws : List Keyword) (l : List ClauseState) (st : S)
      → keyword_states s visit kws ≡ some l
      → iter_keywords s handle visit kws st ≡ walk l st
  unfolding iter_keywords
  iter_keywords-eq-walk visit [] l st h = ground arith
  iter_keywords-eq-walk visit (kw ∷ kws) l st h =
      let (here, read, h2) = bind-eq-some (field_states s kw (visit (kw ∷ kws))) _ h in
      let (rest, later, made) = bind-eq-some (keyword_states s visit kws) _ h2 in
      both here rest read (λ st. iter_keywords-eq-walk visit kws rest st later)
      ∙ ap (λ l. walk l st) (some-injective _ _ made)
    where
      both :
          (here rest : List ClauseState)
          → field_states s kw (visit (kw ∷ kws)) ≡ some here
          → ((st : S) → iter_keywords s handle visit kws st ≡ walk rest st)
          → iter_keywords s handle visit (kw ∷ kws) st ≡ walk (or_missing s kw here ++ rest) st
      both here rest read later =
          rw
            (
              iter_fields-eq-walk kw (visit (kw ∷ kws)) here st read,
              walk-or_missing kw here rest st,
            )
            (elim (Option-cases (walk here st)) [
              | inl g ↦ rw g refl
              | inr (st', g) ↦ rw g (later st')
            ])

  iter_field_keywords-eq-walk :
      (es : List (ClauseEntry Keyword)) (l : List ClauseState) (st : S)
      → field_keyword_states s es ≡ some l
      → iter_field_keywords s handle es st ≡ walk l st
  unfolding iter_field_keywords
  iter_field_keywords-eq-walk [] l st h = ground arith
  iter_field_keywords-eq-walk (e ∷ es) l st h =
      let f : Option Field = lookup_field e.field_hash s.storage.fields in
      let (tokens, read, h2) = bind-eq-some (field_keyword_tokens s e.value f) _ h in
      let (rest, later, made) = bind-eq-some (field_keyword_states s es) _ h2 in
      let state : ClauseState = record { boost = e.value.boost; field = f; tokens = tokens } in
      rw (read, ← some-injective _ _ made)
        (elim (Option-cases (handle_nonempty s handle state st)) [
          | inl g ↦ rw g refl
          | inr (st', g) ↦ rw g (iter_field_keywords-eq-walk es rest st' later)
        ])

  iter_field_ranges-eq-walk :
      (es : List (ClauseEntry Range)) (l : List ClauseState) (st : S)
      → field_range_states s es ≡ some l
      → iter_field_ranges s handle es st ≡ walk l st
  unfolding iter_field_ranges
  iter_field_ranges-eq-walk [] l st h = ground arith
  iter_field_ranges-eq-walk (e ∷ es) l st h =
      let f : Option Field = lookup_field e.field_hash s.storage.fields in
      let (tokens, read, h2) = bind-eq-some (field_range_tokens e.value f) _ h in
      let (rest, later, made) = bind-eq-some (field_range_states s es) _ h2 in
      let state : ClauseState = record { boost = e.value.boost; field = f; tokens = tokens } in
      rw (read, ← some-injective _ _ made)
        (elim (Option-cases (handle_nonempty s handle state st)) [
          | inl g ↦ rw g refl
          | inr (st', g) ↦ rw g (iter_field_ranges-eq-walk es rest st' later)
        ])

  walk_clause :
      (visit : List Keyword → Fields) (c : Clause) (xs ys zs : List ClauseState) (st : S)
      → keyword_states s visit c.keywords ≡ some xs
      → field_keyword_states s c.field_keywords ≡ some ys
      → field_range_states s c.field_ranges ≡ some zs
      → iter s handle visit c st ≡ walk (xs ++ (ys ++ zs)) st
  unfolding iter
  walk_clause visit c xs ys zs st h h2 h3 =
      rw
        (
          iter_keywords-eq-walk visit c.keywords xs st h,
          fold_all-append (handle_nonempty s handle) xs (ys ++ zs) st,
        )
        (elim (Option-cases (walk xs st)) [
          | inl g ↦ rw g refl
          | inr (st', g) ↦
              rw
                (
                  g,
                  iter_field_keywords-eq-walk c.field_keywords ys st' h2,
                  fold_all-append (handle_nonempty s handle) ys zs st',
                )
                (elim (Option-cases (walk ys st')) [
                  | inl k ↦ rw k refl
                  | inr (st'', k) ↦ rw k (iter_field_ranges-eq-walk c.field_ranges zs st'' h3)
                ])
        ])

  -- When the states of a clause can all be computed, for any order in which each keyword
  -- visits the fields, `Iter` hands those that have tokens to its function, in order.
  pub iter-eq-fold :
      (visit : List Keyword → Fields) (c : Clause) (l : List ClauseState) (st : S)
      → states s visit c ≡ some l
      → iter s handle visit c st ≡ fold_all (handle_nonempty s handle) l st
  iter-eq-fold visit c l st h =
      let (xs, read, h2) = bind-eq-some (keyword_states s visit c.keywords) _ h in
      let (ys, read2, h3) = bind-eq-some (field_keyword_states s c.field_keywords) _ h2 in
      let (zs, read3, made) = bind-eq-some (field_range_states s c.field_ranges) _ h3 in
      walk_clause visit c xs ys zs st read read2 read3
      ∙ ap (λ l. walk l st) (some-injective _ _ made)
