-- ===== src/Query/Filter/Matching.antt =====
-- Which documents `FilterDocuments` keeps, said of the states of the three clauses.
use textiplex.Prelude.{
  ℕ, ◌+◌, ◌≡◌, ◌⊎◌, refl, sym, ap, Bool, true, false, not, ◌&&◌, ◌||◌, Option, none, some, List, [],
  ◌∷◌, ◌++◌, length, length-append, All, Bool-cases, inl, inr, arith,
}
use textiplex.Roaring.{Roaring, IsRoaring, contains}
use textiplex.Search.Chain.{any, every}
use textiplex.Storage.Headers.{Token}
use textiplex.Storage.Segment.{PostingList, get_posting_list, unsafe_bitmap}
use textiplex.Query.Clause.{ClauseState, Searcher}
use textiplex.Query.Visit.{handle_nonempty}
use textiplex.Query.Visit.States.{fold_until, fold_all}
use textiplex.Query.Filter.{or_tokens, and_not_tokens, collect_must, remove_must_not}

List-cases : {A : Type 0} (l : List A) → (l ≡ []) ⊎ ((x : A) × (xs : List A) × (l ≡ x ∷ xs))
List-cases [] = inl refl
List-cases (x ∷ xs) = inr (x, xs, refl)

every-append :
    {A : Type 0} (p : A → Bool) (xs ys : List A) → every p (xs ++ ys) ≡ (every p xs && every p ys)
every-append p [] ys = refl
every-append p (x ∷ xs) ys = ground (arith, every-append p xs ys)

module _ (r : Roaring) (law : IsRoaring r) (s : Searcher) where
  abbrev get : Token → Option PostingList
  get t = get_posting_list s.storage.posting_lists t.posting_list_index

  -- The document is in the token's posting list.
  abbrev pub token_has : ℕ → Token → Bool
  token_has x t = elim (get t) [ none ↦ false | some l ↦ contains r (unsafe_bitmap r l) x ]

  token_has_read :
      (x : ℕ) (t : Token) (l : PostingList)
      → get t ≡ some l
      → token_has x t ≡ contains r (unsafe_bitmap r l) x
  token_has_read x t l read = rw (read, token_has) refl

  abbrev pub state_has : ℕ → ClauseState → Bool
  state_has x state = any (token_has x) state.tokens

  -- No posting list is out of range.
  abbrev pub IsReadable : ClauseState → Type 0
  IsReadable state = All (λ t. (l : PostingList) × (get t ≡ some l)) state.tokens

  pub or_tokens_lem :
      (ts : List Token) (b : r.Bitmap)
      → All (λ t. (l : PostingList) × (get t ≡ some l)) ts
      → (c : r.Bitmap) × (or_tokens r s ts b ≡ some c)
        × ((x : ℕ) → contains r c x ≡ (contains r b x || any (token_has x) ts))
  unfolding or_tokens
  or_tokens_lem [] b h = (b, refl, λ x. sym (or_false (contains r b x)))
    where
      or_false : (b : Bool) → (b || false) ≡ b
      or_false true = refl
      or_false false = refl
  or_tokens_lem (t ∷ ts) b h =
      let (l, read) = h.0 in
      let (c, done, has) = or_tokens_lem ts (r.or b (unsafe_bitmap r l)) h.1 in
      (
        c,
        rw read done,
        λ x.
            ground
              (arith, has x, law.contains-or b (unsafe_bitmap r l) x, token_has_read x t l read),
      )

  and_not_tokens_lem :
      (ts : List Token) (b : r.Bitmap)
      → All (λ t. (l : PostingList) × (get t ≡ some l)) ts
      → (c : r.Bitmap) × (and_not_tokens r s ts b ≡ some c)
        × ((x : ℕ) → contains r c x ≡ (contains r b x && not (any (token_has x) ts)))
  unfolding and_not_tokens
  and_not_tokens_lem [] b h = (b, refl, λ x. sym (and_true (contains r b x)))
    where
      and_true : (b : Bool) → (b && true) ≡ b
      and_true true = refl
      and_true false = refl
  and_not_tokens_lem (t ∷ ts) b h =
      let (l, read) = h.0 in
      let (c, done, has) = and_not_tokens_lem ts (r.and_not b (unsafe_bitmap r l)) h.1 in
      (
        c,
        rw read done,
        λ x.
            ground (
              arith,
              has x,
              law.contains-and_not b (unsafe_bitmap r l) x,
              token_has_read x t l read,
            ),
      )

  -- The union of the states' documents.
  pub fold_shoulds :
      (l : List ClauseState) (b : r.Bitmap)
      → All IsReadable l
      → (c : r.Bitmap) × (fold_all (handle_nonempty s (λ state b. or_tokens r s state.tokens b)) l b
          ≡ some c)
        × ((x : ℕ) → contains r c x ≡ (contains r b x || any (state_has x) l))
  fold_shoulds [] b h = (b, refl, λ x. ground arith)
  fold_shoulds (state ∷ l) b h = elim (List-cases state.tokens) [
    | inl g ↦
        (let (c, rest, all) = fold_shoulds l b h.1 in (c, rw g rest, λ x. ground (arith, g, all x)))
    | inr (t, ts, g) ↦
        (let (c, done, has) = or_tokens_lem state.tokens b h.0 in
          let (d, rest, all) = fold_shoulds l c h.1 in
          (d, ground (arith, g, done, rest), λ x. ground (arith, all x, has x)))
  ]

  pub empty_lem : (b : r.Bitmap) → r.is_empty b ≡ true → (x : ℕ) → contains r b x ≡ false
  empty_lem b e x = elim (List-cases (r.to_array b)) [
    | inl g ↦ rw g refl
    | inr (y, ys, g) ↦ ground (arith, ap length g, law.is_empty_iff b, law.cardinality_length b)
  ]

  -- Documents are taken away until none is left.
  pub fold_must_nots :
      (l : List ClauseState) (b : r.Bitmap)
      → All IsReadable l
      → (out : r.Bitmap × Bool) × (fold_until (remove_must_not r s) l b ≡ some out)
        × ((x : ℕ) → contains r out.0 x ≡ (contains r b x && not (any (state_has x) l)))
  unfolding remove_must_not
  fold_must_nots [] b h = ((b, true), refl, λ x. ground arith)
  fold_must_nots (state ∷ l) b h =
      let (c, done, has) = and_not_tokens_lem state.tokens b h.0 in
      elim (Bool-cases (r.is_empty c)) [
        | inl e ↦ ((c, false), rw (done, e) refl, λ x. ground (arith, has x, empty_lem c e x))
        | inr e ↦
            (let (out, rest, all) = fold_must_nots l c h.1 in
              (out, rw (done, e) rest, λ x. ground (arith, has x, all x)))
      ]

  -- The bitmaps collected for the clauses that must match.
  abbrev pub Collected : List ClauseState → List r.Bitmap → List r.Bitmap → Type 0
  Collected l bitmaps out =
      ((out ≡ []) × ((x : ℕ) → every (state_has x) l ≡ false))
      ⊎ ((length out ≡ length bitmaps + length l)
          × ((x : ℕ)
              → every (λ c. contains r c x) out
                ≡ (every (λ c. contains r c x) bitmaps && every (state_has x) l)))

  pub fold_musts :
      (l : List ClauseState) (bitmaps : List r.Bitmap)
      → All IsReadable l
      → (out : List r.Bitmap × Bool) × (fold_until (collect_must r s) l bitmaps ≡ some out)
        × Collected l bitmaps out.0
  unfolding collect_must
  fold_musts [] bitmaps h = ((bitmaps, true), refl, inr (omega arith, λ x. ground arith))
  fold_musts (state ∷ l) bitmaps h = elim (List-cases state.tokens) [
    | inl g ↦ (([], false), rw g refl, inl (refl, λ x. rw g refl))
    | inr (t, ts, g) ↦
        (let (c, done, has) = or_tokens_lem state.tokens r.empty h.0 in
          let (out, rest, found) = fold_musts l (bitmaps ++ c ∷ []) h.1 in
          (
            out,
            ground (arith, g, done, rest),
            elim found [
              | inl (none_left, missed) ↦ inl (none_left, λ x. ground (arith, missed x))
              | inr (size, all) ↦ inr (
                omega (arith, size, length-append bitmaps (c ∷ [])),
                λ x. ground (
                  arith,
                  all x,
                  has x,
                  law.contains-empty x,
                  every-append (λ c. contains r c x) bitmaps (c ∷ []),
                ),
              )
            ],
          ))
  ]
