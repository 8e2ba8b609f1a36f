-- ===== src/Storage/Build/Whole.antt =====
-- In a segment that `BuildFrom` makes, every token's entries and posting list are in range.
use textiplex.Prelude.{
  ℕ, ◌+◌, ◌-◌, ◌≤◌, ◌<◌, ◌≡◌, refl, sym, ap, subst, Bool-cases, inl, inr, ◌∙◌, true, ◌||◌, List, [],
  ◌∷◌, length, map, take, drop, get_elem?_total, le→leb, length-append, length-map, All, All-map,
  arith,
}
use textiplex.Roaring.{Roaring, IsRoaring, contains}
use textiplex.Storage.Headers.{Float32, Token, TokenFrequencies, TokenFrequencyEntry}
use textiplex.Storage.Segment.{Storage, PostingLists, get_posting_list, posting_lists_len}
use textiplex.Storage.Merge.Context.{frequencies_of}
use textiplex.Storage.Merge.Whole.{IsWholeToken, IsWhole, All-snoc}
use textiplex.Storage.Build.{
  BTree, Document, PostingData, FieldAccumulator, Accumulators, posting_bitmap, build_token,
  build_tokens, build_field, build_fields, build_from, accumulate, started,
}
use textiplex.Storage.File.Save.{cold_initialize}
use textiplex.Storage.Build.Laws.{IsFresh}
use textiplex.Storage.Build.Distinct.{has, ascending-le, all_has}

module _ (r : Roaring) (law : IsRoaring r) where
  cardinality-le :
      (freqs : TokenFrequencies) → r.cardinality (posting_bitmap r freqs) ≤ length freqs
  unfolding posting_bitmap
  cardinality-le freqs =
      let xs = map (λ e. e.document_index) freqs in
      let b = r.add_many r.empty xs in
      omega (
        arith,
        law.cardinality_length b,
        length-map (λ (e : TokenFrequencyEntry). e.document_index) freqs,
        ascending-le (r.to_array b) xs (law.to_array_ascending b)
            (All-map (r.to_array b) (λ x h. added xs x h) (all_has (r.to_array b))),
      )
    where
      added : (xs : List ℕ) (x : ℕ) → contains r (r.add_many r.empty xs) x ≡ true → has xs x ≡ true
      added xs x h =
          ap (λ c. c || has xs x) (sym (law.contains-empty x))
          ∙ sym (law.contains-add_many r.empty xs x)
          ∙ h

  -- A token in range, and a storage whose posting lists are in memory.
  abbrev IsInRange : Storage → Token → Type 0
  IsInRange s t =
      (t.frequencies_index + t.frequency_count ≤ length s.token_frequencies)
      × (t.posting_list_index < length s.posting_lists.entries)

  abbrev IsLarger : Storage → Storage → Type 0
  IsLarger s s' =
      (length s.token_frequencies ≤ length s'.token_frequencies)
      × (length s.posting_lists.entries ≤ length s'.posting_lists.entries)

  larger :
      (s s' : Storage) (ts : List Token)
      → IsLarger s s'
      → All (IsInRange s) ts
      → All (IsInRange s') ts
  larger s s' ts l h = All-map ts (λ t k. (omega (arith, l.0, k.0), omega (arith, l.1, k.1))) h

  len_entries : (p : PostingLists) → p.headers ≡ [] → posting_lists_len p ≡ length p.entries
  unfolding posting_lists_len
  len_entries p empty = rw empty (omega arith)

  -- A step of the build: it keeps the posting lists in memory, and the tokens before it in range.
  abbrev IsStep : Storage → Storage → List Token → Type 0
  IsStep s s' ts =
      (s'.posting_lists.headers ≡ [])
      × All (IsInRange s') ts
      × IsLarger s s'
      × (s'.fields ≡ s.fields)

  build_token_lem :
      (s : Storage) (ts : List Token) (pd : PostingData)
      → s.posting_lists.headers ≡ []
      → All (IsInRange s) ts
      → IsStep s (build_token r (s, ts) pd).0 (build_token r (s, ts) pd).1
  unfolding build_token
  build_token_lem s ts pd empty h =
      let s' = (build_token r (s, ts) pd).0 in
      let more = length-append s.token_frequencies pd.freqs in
      let one =
        length-append s.posting_lists.entries
          (record { bytes = r.serialize (posting_bitmap r pd.freqs) } ∷ []) in
      let l : IsLarger s s' = (omega (arith, more), omega (arith, one)) in
      (
        empty,
        All-snoc (IsInRange s') ts _ (larger s s' ts l h) (
          omega (arith, more, cardinality-le pd.freqs),
          omega (arith, one, len_entries s.posting_lists empty),
        ),
        l,
        refl,
      )

  whole_token :
      (s : Storage) (t : Token) → s.posting_lists.headers ≡ [] → IsInRange s t → IsWholeToken s t
  unfolding frequencies_of get_posting_list
  whole_token s t empty (fits, listed) = (
    (
      take (t.frequencies_index + t.frequency_count - t.frequencies_index)
          (drop t.frequencies_index s.token_frequencies),
      rw
          (
            le→leb t.frequencies_index (t.frequencies_index + t.frequency_count) (omega arith),
            le→leb (t.frequencies_index + t.frequency_count) (length s.token_frequencies) fits,
          )
          refl,
    ),
    (let (l, found) = get_elem?_total s.posting_lists.entries t.posting_list_index listed in
        (l, rw (empty, get_posting_list) found)),
  )

  build_tokens_lem :
      (pds : List PostingData) (s : Storage) (ts : List Token)
      → s.posting_lists.headers ≡ []
      → All (IsInRange s) ts
      → IsStep s (build_tokens r pds (s, ts)).0 (build_tokens r pds (s, ts)).1
  unfolding build_tokens
  build_tokens_lem [] s ts empty h = (empty, h, (omega arith, omega arith), refl)
  build_tokens_lem (pd ∷ pds) s ts empty h =
      let (empty', h', l, same) = build_token_lem s ts pd empty h in
      let (empty'', h'', l', same') =
        build_tokens_lem pds (build_token r (s, ts) pd).0 (build_token r (s, ts) pd).1 empty' h' in
      (empty'', h'', (omega (arith, l.0, l'.0), omega (arith, l.1, l'.1)), same' ∙ same)

  abbrev IsBuilt : Storage → Type 0
  IsBuilt s = (s.posting_lists.headers ≡ []) × All (λ p. All (IsInRange s) p.1.tokens) s.fields

  module _ (bt : BTree) (average : ℕ → ℕ → Float32) where
    build_field_lem :
        (s : Storage) (acc : ℕ × FieldAccumulator bt)
        → IsBuilt s
        → IsBuilt (build_field bt r average s acc)
    unfolding build_field
    build_field_lem s acc (empty, h) =
        let st = build_tokens r (bt.items (acc.1.tokens)) (s, []) in
        let (empty', h', l, same) = build_tokens_lem (bt.items (acc.1.tokens)) s [] empty tt in
        (
          empty',
          All-snoc (λ p. All (IsInRange st.0) p.1.tokens) s.fields _
              (All-map s.fields (λ p k. larger s st.0 p.1.tokens l k) h) h',
        )

    build_fields_lem :
        (accs : Accumulators bt) (s : Storage)
        → IsBuilt s
        → IsBuilt (build_fields bt r average accs s)
    unfolding build_fields
    build_fields_lem [] s h = h
    build_fields_lem (acc ∷ accs) s h =
        build_fields_lem accs (build_field bt r average s acc) (build_field_lem s acc h)

    started-headers :
        (s : Storage) (docs : List Document)
        → IsFresh s
        → (started bt r average s docs).posting_lists.headers ≡ []
    unfolding started cold_initialize
    started-headers s docs (inl initialized) = rw initialized refl
    started-headers s docs (inr none_left) = elim (Bool-cases s.initialized) [
      | inl initialized ↦ rw initialized refl
      | inr other ↦ rw other none_left
    ]

    pub started-fields :
        (s : Storage) (docs : List Document) → (started bt r average s docs).fields ≡ []
    unfolding started cold_initialize
    started-fields s docs = refl

    -- For a bitmap library that keeps its laws, whatever the tree of tokens hands out, in
    -- whatever order the fields are visited, and on a storage that is initialized or else
    -- has no headers of posting lists: in the segment that `BuildFrom` makes of any
    -- documents, every token of every field has its entries within the token frequencies,
    -- and its posting list.
    pub build_from-IsWhole :
        (visit : Accumulators bt → Accumulators bt) (s : Storage) (docs : List Document)
        → IsFresh s
        → IsWhole (build_from bt r average visit s docs)
    unfolding build_from
    build_from-IsWhole visit s docs fresh =
        let begun = started bt r average s docs in
        let accs = visit (accumulate bt 0 docs []) in
        let built = build_fields bt r average accs begun in
        let (empty, h) = build_fields_lem accs begun (
          started-headers s docs fresh,
          subst (λ fs. All (λ p. All (IsInRange begun) p.1.tokens) fs) (sym (started-fields s docs))
              tt,
        ) in
        All-map built.fields
          (λ p k. All-map p.1.tokens (λ t range. whole_token built t empty range) k) h
