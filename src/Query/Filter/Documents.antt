-- ===== src/Query/Filter/Documents.antt =====
-- The set that `FilterDocuments` computes.
use textiplex.Prelude.{
  ℕ, ◌≤◌, ◌≡◌, refl, sym, ◌∙◌, ap, Bool, not, ◌&&◌, some, List, [], ◌∷◌, ltb, length, if◌then◌else◌,
  All, Bool-cases, inl, inr, arith,
}
use textiplex.Roaring.{Roaring, IsRoaring, contains}
use textiplex.Search.Chain.{any, every}
use textiplex.Storage.Segment.{Fields}
use textiplex.Query.Clause.{ClauseState, Keyword, SimpleQuery, Searcher, count}
use textiplex.Query.Visit.States.{states, iter_cond-eq-fold}
use textiplex.Query.Visit.Walk.{iter-eq-fold}
use textiplex.Query.Filter.{
  intersect, collect_must, remove_must_not, or_tokens, candidates, filter_documents,
}
use textiplex.Query.Filter.Matching.{
  state_has, IsReadable, Collected, fold_shoulds, fold_must_nots, fold_musts, empty_lem,
}
use textiplex.Query.Filter.Counts.{states-count}

module _ (r : Roaring) (law : IsRoaring r) (s : Searcher) where
  -- What a document must satisfy, from the states of the clauses.
  abbrev pub is_candidate : SimpleQuery → List ClauseState → List ClauseState → ℕ → Bool
  is_candidate q must should x =
      if ltb 0 (count q.musts)
      then every (state_has r law s x) must
      else any (state_has r law s x) should

  -- The candidates without those that a clause of `must_nots` reaches.
  abbrev pub is_match :
      SimpleQuery → List ClauseState → List ClauseState → List ClauseState → ℕ → Bool
  is_match q must should must_not x =
      is_candidate q must should x && not (any (state_has r law s x) must_not)

module _ (r : Roaring) (law : IsRoaring r) (s : Searcher)
    (visit_musts visit_shoulds visit_must_nots : List Keyword → Fields) where
  intersect_lem :
      (out : List r.Bitmap) (must : List ClauseState) (x : ℕ)
      → Collected r law s must [] out
      → 1 ≤ length must
      → contains r (intersect r s r.empty out) x ≡ every (state_has r law s x) must
  intersect_lem [] must x (inl (nothing, missed)) h = law.contains-empty x ∙ sym (missed x)
  intersect_lem [] must x (inr (size, all)) h = absurd (omega (arith, size))
  intersect_lem (b ∷ bs) must x (inl (nothing, missed)) h =
      absurd (omega (arith, ap length nothing))
  intersect_lem (b ∷ bs) must x (inr (size, all)) h = law.contains-fast_and b bs x ∙ all x

  candidates_lem :
      (q : SimpleQuery) (must should : List ClauseState)
      → states s visit_musts q.musts ≡ some must
      → states s visit_shoulds q.shoulds ≡ some should
      → All (IsReadable r law s) must
      → All (IsReadable r law s) should
      → (b : r.Bitmap) × (candidates r s visit_musts visit_shoulds q r.empty ≡ some b)
        × ((x : ℕ) → contains r b x ≡ is_candidate r law s q must should x)
  unfolding candidates
  candidates_lem q must should read_m read_s ok_m ok_s = elim (Bool-cases (ltb 0 (count q.musts))) [
    | inl e ↦
        (let ((out, next), done, found) = fold_musts r law s must [] ok_m in
          (
            intersect r s r.empty out,
            rw (e, iter_cond-eq-fold s (collect_must r s) visit_musts q.musts must [] read_m, done)
                refl,
            λ x. ground (
              arith,
              e,
              intersect_lem out must x found
                  (ground (arith, e, (states-count s visit_musts q.musts must read_m).0)),
            ),
          ))
    | inr e ↦ elim (Bool-cases (ltb 0 (count q.shoulds))) [
      | inl g ↦
          (let (b, done, has) = fold_shoulds r law s should r.empty ok_s in
            (
              b,
              rw
                  (
                    e,
                    g,
                    iter-eq-fold s (λ state b. or_tokens r s state.tokens b) visit_shoulds q.shoulds
                        should r.empty read_s,
                  )
                  done,
              λ x. ground (arith, e, has x, law.contains-empty x),
            ))
      | inr g ↦ (
        r.empty,
        rw (e, g) refl,
        λ x. ground (
          arith,
          e,
          (states-count s visit_shoulds q.shoulds should read_s).1 (ground (arith, g)),
          law.contains-empty x,
        ),
      )
    ]
  ]

  -- For a bitmap library that keeps its laws, when the states of the three clauses can be
  -- computed, in the orders in which their keywords visit the fields, and no posting list is
  -- out of range: `FilterDocuments` on an empty bitmap returns exactly the documents that
  -- every state of the clauses that must match has or, without such a clause, that one state
  -- of the optional clauses has, and that no state of the excluded clauses has. A keyword
  -- without a field has one state for each visited field that has it, so that a clause that
  -- must match asks for it in all of those.
  pub filter_documents-is_match :
      (q : SimpleQuery) (must should must_not : List ClauseState)
      → states s visit_musts q.musts ≡ some must
      → states s visit_shoulds q.shoulds ≡ some should
      → states s visit_must_nots q.must_nots ≡ some must_not
      → All (IsReadable r law s) must
      → All (IsReadable r law s) should
      → All (IsReadable r law s) must_not
      → (b : r.Bitmap) × (filter_documents r s visit_musts visit_shoulds visit_must_nots q r.empty
          ≡ some b)
        × ((x : ℕ) → contains r b x ≡ is_match r law s q must should must_not x)
  unfolding filter_documents
  filter_documents-is_match q must should must_not read_m read_s read_n ok_m ok_s ok_n =
      let (b, done, has) = candidates_lem q must should read_m read_s ok_m ok_s in
      elim (Bool-cases (ltb 0 (count q.must_nots))) [
        | inl e ↦ elim (Bool-cases (ltb 0 (r.cardinality b))) [
          | inl g ↦
              (let (out, rest, kept) = fold_must_nots r law s must_not b ok_n in
                (
                  out.0,
                  rw
                      (
                        done,
                        e,
                        g,
                        iter_cond-eq-fold s (remove_must_not r s) visit_must_nots q.must_nots
                            must_not b read_n,
                        rest,
                      )
                      refl,
                  λ x. ground (arith, kept x, has x),
                ))
          | inr g ↦ (
            b,
            rw (done, e, g) refl,
            λ x.
                ground
                  (arith, has x, empty_lem r law s b (ground (arith, g, law.is_empty_iff b)) x),
          )
        ]
        | inr e ↦ (
          b,
          rw (done, e) refl,
          λ x. ground (
            arith,
            has x,
            (states-count s visit_must_nots q.must_nots must_not read_n).1 (ground (arith, e)),
          ),
        )
      ]
