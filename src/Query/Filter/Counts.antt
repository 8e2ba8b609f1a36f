-- ===== src/Query/Filter/Counts.antt =====
-- How many states a clause has, against what `Clause.Count` counts.
use textiplex.Prelude.{
  ◌≤◌, ◌≡◌, refl, sym, ap, Option, some, List, [], ◌∷◌, ◌++◌, length, length-append, bind-eq-some,
  arith,
}
use mathlib.Core.Option.{some-injective}
use textiplex.Storage.Segment.{Field, Fields, lookup_field}
use textiplex.Query.Clause.{Clause, ClauseEntry, ClauseState, Keyword, Range, Searcher, count}
use textiplex.Query.Visit.{field_keyword_tokens, field_range_tokens}
use textiplex.Query.Visit.States.{
  states, field_states, keyword_states, field_keyword_states, field_range_states, or_missing,
}

-- A clause has a state for each of its parts.
module _ (s : Searcher) where
  length-or_missing : (kw : Keyword) (l : List ClauseState) → 1 ≤ length (or_missing s kw l)
  length-or_missing kw [] = omega arith
  length-or_missing kw (x ∷ xs) = omega arith

  -- What `states` reads of the keywords.
  keyword_states-le :
      (visit : List Keyword → Fields) (kws : List Keyword) (l : List ClauseState)
      → keyword_states s visit kws ≡ some l
      → (length kws ≤ length l) × (kws ≡ [] → l ≡ [])
  keyword_states-le visit [] l h = (omega arith, λ e. sym (some-injective _ _ h))
  keyword_states-le visit (kw ∷ kws) l h =
      let (here, read, h2) = bind-eq-some (field_states s kw (visit (kw ∷ kws))) _ h in
      let (rest, later, made) = bind-eq-some (keyword_states s visit kws) _ h2 in
      (
        omega (
          arith,
          ap length (some-injective _ _ made),
          length-append (or_missing s kw here) rest,
          length-or_missing kw here,
          (keyword_states-le visit kws rest later).0,
        ),
        λ e. ground arith,
      )

  length-field_keyword_states :
      (es : List (ClauseEntry Keyword)) (l : List ClauseState)
      → field_keyword_states s es ≡ some l
      → length l ≡ length es
  length-field_keyword_states [] l h = ground arith
  length-field_keyword_states (e ∷ es) l h =
      let f : Option Field = lookup_field e.field_hash s.storage.fields in
      let (tokens, read, h2) = bind-eq-some (field_keyword_tokens s e.value f) _ h in
      let (rest, later, made) = bind-eq-some (field_keyword_states s es) _ h2 in
      omega (arith, ap length (some-injective _ _ made), length-field_keyword_states es rest later)

  length-field_range_states :
      (es : List (ClauseEntry Range)) (l : List ClauseState)
      → field_range_states s es ≡ some l
      → length l ≡ length es
  length-field_range_states [] l h = ground arith
  length-field_range_states (e ∷ es) l h =
      let f : Option Field = lookup_field e.field_hash s.storage.fields in
      let (tokens, read, h2) = bind-eq-some (field_range_tokens e.value f) _ h in
      let (rest, later, made) = bind-eq-some (field_range_states s es) _ h2 in
      omega (arith, ap length (some-injective _ _ made), length-field_range_states es rest later)

  nil_of_length : {A : Type 0} (l : List A) → length l ≡ 0 → l ≡ []
  nil_of_length [] h = refl
  nil_of_length (x ∷ l) h = absurd (omega arith)

  -- A clause that counts nothing has no state, any other has one.
  pub states-count :
      (visit : List Keyword → Fields) (c : Clause) (l : List ClauseState)
      → states s visit c ≡ some l
      → (count c ≤ length l) × (count c ≡ 0 → l ≡ [])
  unfolding count
  states-count visit c l h =
      let (xs, read, h2) = bind-eq-some (keyword_states s visit c.keywords) _ h in
      let (ys, read2, h3) = bind-eq-some (field_keyword_states s c.field_keywords) _ h2 in
      let (zs, read3, made) = bind-eq-some (field_range_states s c.field_ranges) _ h3 in
      let size = ap length (some-injective _ _ made) in
      let sizes = (length-append xs (ys ++ zs)) in
      let (least, none_left) = keyword_states-le visit c.keywords xs read in
      (
        omega (
          arith,
          size,
          sizes,
          length-append ys zs,
          least,
          length-field_keyword_states c.field_keywords ys read2,
          length-field_range_states c.field_ranges zs read3,
        ),
        λ e. nil_of_length l (
            omega (
              arith,
              size,
              sizes,
              length-append ys zs,
              ap length (none_left (nil_of_length c.keywords (omega arith))),
              length-field_keyword_states c.field_keywords ys read2,
              length-field_range_states c.field_ranges zs read3,
            )),
      )
