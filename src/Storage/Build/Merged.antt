-- ===== src/Storage/Build/Merged.antt =====
-- Two segments that `BuildFrom` makes can be merged.
use textiplex.Prelude.{
  ℕ, ◌+◌, ◌%◌, ◌^◌, ◌≡◌, ◌≢◌, refl, sym, ap, ◌∙◌, subst, true, false, none, some, List, [], ◌∷◌,
  ◌++◌, ◌==◌, map, All, Bool-cases, inl, inr, arith,
}
use mathlib.Core.List.{append_assoc, append-nil}
use textiplex.Roaring.{Roaring, IsRoaring}
use textiplex.Storage.Headers.{Float32}
use textiplex.Storage.Segment.{Storage, Field, Fields, lookup_field}
use textiplex.Storage.Merge.Context.{Round}
use textiplex.Storage.Merge.Assemble.{SegmentFile, merge}
use textiplex.Storage.Merge.Plan.{HasUniqueKeys}
use textiplex.Storage.Merge.Result.{Follows}
use textiplex.Storage.Merge.Returns.{merge-total}
use textiplex.Storage.Build.{
  BTree, Document, FieldDefinition, FieldAccumulator, Accumulators, add_field, add_fields,
  accumulate, build_field, build_fields, build_from, started,
}
use textiplex.Storage.File.Save.{cold_initialize}
use textiplex.Storage.Build.Laws.{keys, IsDistinct, IsBTree, IsRange, IsFresh}
use textiplex.Storage.Build.Whole.{build_from-IsWhole}
use textiplex.Storage.Build.Filled.{build_from-IsFilled}

distinct-HasUniqueKeys : (fs : Fields) → IsDistinct (keys fs) → HasUniqueKeys fs
unfolding keys IsDistinct lookup_field
distinct-HasUniqueKeys [] h = tt
distinct-HasUniqueKeys ((k, f) ∷ fs) h = (missing fs h.0, distinct-HasUniqueKeys fs h.1)
  where
    equal : (a b : ℕ) → (a == b) ≡ true → b ≡ a
    equal a b e = ground (arith, e)

    missing : (fs : Fields) → All (λ j. k ≢ j) (map (λ p. p.0) fs) → lookup_field k fs ≡ none
    missing [] h = refl
    missing ((j, g) ∷ fs) h = elim (Bool-cases (j == k)) [
      | inl same ↦ absurd (h.0 (equal j k same))
      | inr other ↦ rw other (missing fs h.1)
    ]

module _ (bt : BTree) where
  add_field-IsDistinct :
      (d : ℕ) (f : FieldDefinition) (accs : Accumulators bt)
      → IsDistinct (keys accs)
      → IsDistinct (keys (add_field bt d f accs))
  unfolding add_field keys IsDistinct
  add_field-IsDistinct d f [] h = (tt, tt)
  add_field-IsDistinct d f ((k, acc) ∷ accs) h = elim (Bool-cases (k == f.hash)) [
    | inl same ↦ rw same h
    | inr other ↦
        rw other (apart accs (differ k f.hash other) h.0, add_field-IsDistinct d f accs h.1)
  ]
    where
      differ : (a b : ℕ) → (a == b) ≡ false → a ≢ b
      differ a b h e = ground (arith, e)

      apart :
          (accs : Accumulators bt)
          → k ≢ f.hash
          → All (λ j. k ≢ j) (map (λ p. p.0) accs)
          → All (λ j. k ≢ j) (map (λ p. p.0) (add_field bt d f accs))
      apart [] ne h = (ne, tt)
      apart ((j, acc) ∷ accs) ne h = elim (Bool-cases (j == f.hash)) [
        | inl same ↦ rw same h
        | inr other ↦ rw other (h.0, apart accs ne h.1)
      ]

  add_fields-IsDistinct :
      (d : ℕ) (fs : List FieldDefinition) (accs : Accumulators bt)
      → IsDistinct (keys accs)
      → IsDistinct (keys (add_fields bt d fs accs))
  unfolding add_fields
  add_fields-IsDistinct d [] accs h = h
  add_fields-IsDistinct d (f ∷ fs) accs h =
      add_fields-IsDistinct d fs (add_field bt d f accs) (add_field-IsDistinct d f accs h)

  accumulate-IsDistinct :
      (i : ℕ) (docs : List Document) (accs : Accumulators bt)
      → IsDistinct (keys accs)
      → IsDistinct (keys (accumulate bt i docs accs))
  unfolding accumulate
  accumulate-IsDistinct i [] accs h = h
  accumulate-IsDistinct i (doc ∷ docs) accs h =
      accumulate-IsDistinct (i + 1) docs _ (add_fields-IsDistinct (i % 2 ^ 32) doc.fields accs h)

  module _ (r : Roaring) (average : ℕ → ℕ → Float32) where
    keys-build_field :
        (s : Storage) (acc : ℕ × FieldAccumulator bt)
        → keys (build_field bt r average s acc).fields ≡ keys s.fields ++ acc.0 ∷ []
    unfolding build_field keys
    keys-build_field s acc = map_snoc s.fields _
      where
        map_snoc :
            (fs : Fields) (p : ℕ × Field)
            → map (λ p. p.0) (fs ++ p ∷ []) ≡ map (λ p. p.0) fs ++ p.0 ∷ []
        map_snoc [] p = refl
        map_snoc (q ∷ fs) p = ap (λ ks. q.0 ∷ ks) (map_snoc fs p)

    keys-build_fields :
        (accs : Accumulators bt) (s : Storage)
        → keys (build_fields bt r average accs s).fields ≡ keys s.fields ++ keys accs
    unfolding build_fields keys
    keys-build_fields [] s = sym (append-nil (map (λ p. p.0) s.fields))
    keys-build_fields (acc ∷ accs) s =
        keys-build_fields accs (build_field bt r average s acc)
        ∙ ap (λ ks. ks ++ map (λ p. p.0) accs) (keys-build_field s acc)
        ∙ append_assoc (map (λ p. p.0) s.fields) (acc.0 ∷ []) (map (λ p. p.0) accs)

    module _ (visit : Accumulators bt → Accumulators bt) (range : IsRange bt visit) where
      -- Each field of the documents stands once in the segment.
      build_from-HasUniqueKeys :
          (s : Storage) (docs : List Document)
          → HasUniqueKeys (build_from bt r average visit s docs).fields
      unfolding build_from started cold_initialize keys IsDistinct
      build_from-HasUniqueKeys s docs = distinct-HasUniqueKeys _ (
          subst IsDistinct
            (sym
              (keys-build_fields (visit (accumulate bt 0 docs [])) (started bt r average s docs)))
            (range.once (accumulate bt 0 docs []) (accumulate-IsDistinct 0 docs [] tt)))

      -- For a bitmap library and a tree library that keep their laws, a `range` over the
      -- fields that visits only what is there and none twice, and two lists of
      -- documents, each built on a storage that is initialized or else has no headers of
      -- posting lists: `Merge` of the two segments that `BuildFrom` makes returns, and
      -- the file holds the tokens of the planned rounds one after another, their entries
      -- in the same order, the matching totals in its header, and the posting lists of
      -- the rounds.
      pub merge-build_from :
          IsRoaring r
          → IsBTree bt
          → (s_a s_b : Storage) (docs_a docs_b : List Document) → IsFresh s_a
          → IsFresh s_b
          → (file : SegmentFile) × (merge r average
                (build_from bt r average visit s_a docs_a)
                (build_from bt r average visit s_b docs_b)
              ≡ some file)
            × ((rs : List Round) × Follows r average
                  (build_from bt r average visit s_a docs_a)
                  (build_from bt r average visit s_b docs_b)
                  rs
                  file)
      merge-build_from law tree s_a s_b docs_a docs_b fresh_a fresh_b =
          merge-total r (build_from bt r average visit s_a docs_a)
            (build_from bt r average visit s_b docs_b)
            (build_from-IsFilled r law bt tree average visit s_a docs_a range fresh_a)
            (build_from-IsWhole r law bt average visit s_b docs_b fresh_b) average
            (build_from-HasUniqueKeys s_a docs_a) (build_from-HasUniqueKeys s_b docs_b)
