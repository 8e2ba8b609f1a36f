-- ===== src/Storage/Build/Filled.antt =====
-- In a segment that `BuildFrom` makes, every token has at least one entry.
use textiplex.Prelude.{
  ℕ, ◌+◌, ◌<◌, ◌%◌, ◌^◌, ◌≡◌, refl, sym, subst, ◌∙◌, ◌||◌, Bool, true, Option, none, some, List, [],
  ◌∷◌, ◌++◌, ◌==◌, ltb, length, map, All, All-map, Bool-cases, Option-cases, inl, inr, arith,
}
use textiplex.Roaring.{Roaring, IsRoaring, contains}
use textiplex.Search.Chain.{any}
use textiplex.Storage.Headers.{Float32, Token, TokenFrequencies, TokenFrequencyEntry}
use textiplex.Storage.Segment.{Storage}
use textiplex.Storage.Merge.Whole.{IsFilled, All-snoc, All-zip}
use textiplex.Storage.Build.{
  BTree, PostingData, Document, FieldDefinition, TokenDefinition, FieldAccumulator, Accumulators,
  new_accumulator, posting_bitmap, add_frequency, add_tokens, add_length, add_field, add_fields,
  accumulate, build_token, build_tokens, build_field, build_fields, build_from, started,
}
use textiplex.Storage.Build.Laws.{IsBTree, IsRange, IsFresh}
use textiplex.Storage.Build.Whole.{build_from-IsWhole, started-fields}

abbrev HasEntries : PostingData → Type 0
HasEntries pd = 0 < length pd.freqs

abbrev IsCounted : Token → Type 0
IsCounted t = 0 < t.frequency_count

length-snoc : {A : Type 0} (xs : List A) (x : A) → 0 < length (xs ++ x ∷ [])
length-snoc [] x = omega arith
length-snoc (y ∷ xs) x = omega arith

module _ (bt : BTree) (tree : IsBTree bt) where
  abbrev IsKept : ℕ × FieldAccumulator bt → Type 0
  IsKept p = All HasEntries (bt.items (p.1.tokens))

  add_frequency-HasEntries :
      (t : bt.Tree) (d : ℕ) (def : TokenDefinition)
      → All HasEntries (bt.items t)
      → All HasEntries (bt.items (add_frequency bt t d def))
  unfolding add_frequency
  add_frequency-HasEntries t d def h = elim (Option-cases (bt.get t def.value)) [
    | inl e ↦ rw (e, add_frequency) (tree.items-set HasEntries t _ h (omega arith))
    | inr (pd, e) ↦ rw (e, add_frequency) (tree.items-set HasEntries t _ h (length-snoc pd.freqs _))
  ]

  add_tokens-IsKept :
      (d : ℕ) (ts : List (Option TokenDefinition)) (k : ℕ) (acc : FieldAccumulator bt)
      → IsKept (k, acc)
      → IsKept (k, add_tokens bt d ts acc)
  unfolding add_tokens
  add_tokens-IsKept d [] k acc h = h
  add_tokens-IsKept d (none ∷ ts) k acc h = add_tokens-IsKept d ts k acc h
  add_tokens-IsKept d (some t ∷ ts) k acc h =
      add_tokens-IsKept d ts k _ (add_frequency-HasEntries acc.tokens d t h)

  add_length-tokens :
      (d len : ℕ) (acc : FieldAccumulator bt) → (add_length bt d len acc).tokens ≡ acc.tokens
  unfolding add_length
  add_length-tokens d len acc = elim (Bool-cases (ltb 0 len)) [
    | inl some_length ↦ rw some_length refl
    | inr no_length ↦ rw no_length refl
  ]

  add_all-IsKept :
      (d : ℕ) (f : FieldDefinition) (k : ℕ) (acc : FieldAccumulator bt)
      → IsKept (k, acc)
      → IsKept (k, add_tokens bt d f.tokens (add_length bt d f.length acc))
  add_all-IsKept d f k acc h =
      add_tokens-IsKept d f.tokens k (add_length bt d f.length acc)
        (subst (λ t. All HasEntries (bt.items t)) (sym (add_length-tokens d f.length acc)) h)

  add_field-IsKept :
      (d : ℕ) (f : FieldDefinition) (accs : Accumulators bt)
      → All IsKept accs
      → All IsKept (add_field bt d f accs)
  unfolding add_field
  add_field-IsKept d f [] h = (
    add_all-IsKept d f f.hash (new_accumulator bt)
        (subst (All HasEntries) (sym tree.items-empty) tt),
    tt,
  )
  add_field-IsKept d f ((k, acc) ∷ accs) h = elim (Bool-cases (k == f.hash)) [
    | inl same ↦ rw same (add_all-IsKept d f k acc h.0, h.1)
    | inr other ↦ rw other (h.0, add_field-IsKept d f accs h.1)
  ]

  add_fields-IsKept :
      (d : ℕ) (fs : List FieldDefinition) (accs : Accumulators bt)
      → All IsKept accs
      → All IsKept (add_fields bt d fs accs)
  unfolding add_fields
  add_fields-IsKept d [] accs h = h
  add_fields-IsKept d (f ∷ fs) accs h = add_fields-IsKept d fs _ (add_field-IsKept d f accs h)

  accumulate-IsKept :
      (i : ℕ) (docs : List Document) (accs : Accumulators bt)
      → All IsKept accs
      → All IsKept (accumulate bt i docs accs)
  unfolding accumulate
  accumulate-IsKept i [] accs h = h
  accumulate-IsKept i (doc ∷ docs) accs h =
      accumulate-IsKept (i + 1) docs _ (add_fields-IsKept (i % 2 ^ 32) doc.fields accs h)

module _ (r : Roaring) (law : IsRoaring r) where
  cardinality-pos :
      (freqs : TokenFrequencies) → 0 < length freqs → 0 < r.cardinality (posting_bitmap r freqs)
  unfolding posting_bitmap
  cardinality-pos [] h = absurd (omega (arith, h))
  cardinality-pos (e ∷ freqs) h =
      let xs = map (λ (e : TokenFrequencyEntry). e.document_index) (e ∷ freqs) in
      let b = r.add_many r.empty xs in
      let added : contains r b e.document_index ≡ true =
        law.contains-add_many r.empty xs e.document_index
        ∙ member (contains r r.empty e.document_index) e.document_index
            (map (λ (e : TokenFrequencyEntry). e.document_index) freqs) in
      omega (arith, law.cardinality_length b, nonempty (r.to_array b) e.document_index added)
    where
      member : (c : Bool) (x : ℕ) (xs : List ℕ) → (c || any (λ y. y == x) (x ∷ xs)) ≡ true
      member c x xs = ground arith

      nonempty : (ys : List ℕ) (x : ℕ) → any (λ y. y == x) ys ≡ true → 0 < length ys
      nonempty [] x h = ground arith
      nonempty (y ∷ ys) x h = omega arith

  build_tokens-IsCounted :
      (pds : List PostingData) (s : Storage) (ts : List Token)
      → All HasEntries pds
      → All IsCounted ts
      → All IsCounted (build_tokens r pds (s, ts)).1
  unfolding build_tokens build_token
  build_tokens-IsCounted [] s ts h k = k
  build_tokens-IsCounted (pd ∷ pds) s ts h k =
      build_tokens-IsCounted pds (build_token r (s, ts) pd).0 (build_token r (s, ts) pd).1 h.1
        (All-snoc IsCounted ts _ k (cardinality-pos pd.freqs h.0))

  module _ (bt : BTree) (tree : IsBTree bt) (average : ℕ → ℕ → Float32) where
    abbrev HasCounts : Storage → Type 0
    HasCounts s = All (λ p. All IsCounted p.1.tokens) s.fields

    build_fields-HasCounts :
        (accs : Accumulators bt) (s : Storage)
        → All (IsKept bt tree) accs
        → HasCounts s
        → HasCounts (build_fields bt r average accs s)
    unfolding build_fields build_field
    build_fields-HasCounts [] s h k = k
    build_fields-HasCounts (acc ∷ accs) s h k =
        build_fields-HasCounts accs (build_field bt r average s acc) h.1 (
          All-snoc (λ p. All IsCounted p.1.tokens) s.fields _ k
            (build_tokens-IsCounted (bt.items (acc.1.tokens)) s [] h.0 tt))

    pub build_from-IsFilled :
        (visit : Accumulators bt → Accumulators bt) (s : Storage) (docs : List Document)
        → IsRange bt visit
        → IsFresh s
        → IsFilled (build_from bt r average visit s docs)
    unfolding build_from
    build_from-IsFilled visit s docs range fresh =
        let accs = visit (accumulate bt 0 docs []) in
        let begun = started bt r average s docs in
        let built = build_fields bt r average accs begun in
        let counts : HasCounts built =
          build_fields-HasCounts accs begun
            (range.all_visited (IsKept bt tree) (accumulate bt 0 docs [])
              (accumulate-IsKept bt tree 0 docs [] tt))
            (subst (λ fs. All (λ p. All IsCounted p.1.tokens) fs)
              (sym (started-fields r law bt average s docs)) tt) in
        All-map built.fields (λ p (w, c). All-zip _ IsCounted p.1.tokens w c)
          (All-zip _ _ built.fields (build_from-IsWhole r law bt average visit s docs fresh) counts)
