-- ===== src/Storage/Merge/Prepared.antt =====
-- The preparation pass writes the entries of the plan and leaves the order of the fields.
use textiplex.Prelude.{
  ℕ, ◌+◌, ◌≡◌, refl, ◌∙◌, some, List, [], ◌∷◌, ◌++◌, length, map, arith, length-append, subst,
  bind-eq-some,
}
use mathlib.Core.List.{append_assoc, append-nil}
use mathlib.Core.Option.{some-injective}
use textiplex.Storage.Headers.{TokenFrequencies}
use textiplex.Storage.Segment.{Storage}
use textiplex.Storage.Merge.Context.{
  MergeContext, Round, only_a, only_b, both, for_each, frequencies_of, offset_frequency,
}
use textiplex.Storage.Merge.Prepare.{write_frequencies_a, prepare_round}
use textiplex.Storage.Merge.Plan.{block, blocks}
use textiplex.Storage.Merge.Whole.{written-eq-some}

module _ (storage_a storage_b : Storage) (offset : ℕ) where
  -- From `c` to `d` the entries of `rs` have been written, and their tokens counted; the order of
  -- the fields apart, nothing else has changed.
  pub record Prepares (rs : List Round) (c d : MergeContext) : Type 0 where
    pub entries : TokenFrequencies
    pub planned : blocks storage_a storage_b offset rs ≡ some entries
    pub frequencies : d.frequencies ≡ c.frequencies ++ entries
    pub counted : d.posting_list_count ≡ c.posting_list_count + length rs
    pub cursor : d.posting_list_cursor ≡ c.posting_list_cursor
    pub frequencies_cursor : d.frequencies_cursor ≡ c.frequencies_cursor
    pub pending : d.pending_posting_lists ≡ c.pending_posting_lists
    pub sections : d.sections ≡ c.sections

  blocks-append :
      (rs ss : List Round) (f g : TokenFrequencies)
      → blocks storage_a storage_b offset rs ≡ some f
      → blocks storage_a storage_b offset ss ≡ some g
      → blocks storage_a storage_b offset (rs ++ ss) ≡ some (f ++ g)
  blocks-append [] ss f g p q = rw (← some-injective _ _ p) q
  blocks-append (r ∷ rs) ss f g p q =
      let (x, here, rest) = bind-eq-some (block storage_a storage_b offset r) _ p in
      let (y, there, done) = bind-eq-some (blocks storage_a storage_b offset rs) _ rest in
      rw (here, blocks-append rs ss y g there q, ← some-injective _ _ done) (simp append_assoc)

  pub Prepares-nil : (c : MergeContext) → Prepares [] c c
  Prepares-nil c = record {
    entries = [];
    planned = refl;
    frequencies = rw append-nil;
    counted = omega arith;
    cursor = refl;
    frequencies_cursor = refl;
    pending = refl;
    sections = refl;
  }

  pub Prepares-append :
      (rs ss : List Round) (c d e : MergeContext)
      → Prepares rs c d
      → Prepares ss d e
      → Prepares (rs ++ ss) c e
  Prepares-append rs ss c d e p q = record {
    entries = p.entries ++ q.entries;
    planned = blocks-append rs ss p.entries q.entries p.planned q.planned;
    frequencies = rw (q.frequencies, p.frequencies) (simp append_assoc);
    counted = omega (arith, p.counted, q.counted, length-append rs ss);
    cursor = q.cursor ∙ p.cursor;
    frequencies_cursor = q.frequencies_cursor ∙ p.frequencies_cursor;
    pending = q.pending ∙ p.pending;
    sections = q.sections ∙ p.sections;
  }

  -- One round: the entries of one token, or of one of each storage.
  prepare_round-Prepares :
      (c : MergeContext) (r : Round) (d : MergeContext)
      → prepare_round storage_a storage_b offset c r ≡ some d
      → Prepares (r ∷ []) c d × (d.fields_order ≡ c.fields_order)
  unfolding prepare_round
  prepare_round-Prepares c (only_a t) d h =
      let (f, e, done) = written-eq-some (frequencies_of storage_a t) _ _ h in
      subst (λ x. Prepares (only_a t ∷ []) c x × (x.fields_order ≡ c.fields_order))
        (some-injective _ _ done)
        (
          record {
            entries = f;
            planned = rw e (simp append-nil);
            frequencies = refl;
            counted = omega arith;
            cursor = refl;
            frequencies_cursor = refl;
            pending = refl;
            sections = refl;
          },
          refl,
        )
  prepare_round-Prepares c (only_b t) d h =
      let (f, e, done) = bind-eq-some (frequencies_of storage_b t) _ h in
      subst (λ x. Prepares (only_b t ∷ []) c x × (x.fields_order ≡ c.fields_order))
        (some-injective _ _ done)
        (
          record {
            entries = map (offset_frequency offset) f;
            planned = rw e (simp append-nil);
            frequencies = refl;
            counted = omega arith;
            cursor = refl;
            frequencies_cursor = refl;
            pending = refl;
            sections = refl;
          },
          refl,
        )
  prepare_round-Prepares c (both a b) d h =
      let (c₁, first, second) =
        bind-eq-some (write_frequencies_a storage_a storage_b offset _ a) _ h in
      let (f, e, done) = written-eq-some (frequencies_of storage_a a) _ _ first in
      let (g, e', done') = bind-eq-some (frequencies_of storage_b b) _ second in
      subst (λ x. Prepares (both a b ∷ []) c x × (x.fields_order ≡ c.fields_order))
        (some-injective _ _ done')
        (subst
          (λ y.
            Prepares (both a b ∷ []) c
              (record y { frequencies = y.frequencies ++ map (offset_frequency offset) g })
            × (y.fields_order ≡ c.fields_order))
          (some-injective _ _ done)
          (
            record {
              entries = f ++ map (offset_frequency offset) g;
              planned = rw (e, e') (simp append-nil);
              frequencies = simp append_assoc;
              counted = omega arith;
              cursor = refl;
              frequencies_cursor = refl;
              pending = refl;
              sections = refl;
            },
            refl,
          ))

  abbrev pub Keeps : List Round → MergeContext → MergeContext → Type 0
  Keeps rs c d = Prepares rs c d × (d.fields_order ≡ c.fields_order)

  pub rounds-Prepares :
      (rs : List Round) (c e : MergeContext)
      → for_each (prepare_round storage_a storage_b offset) c rs ≡ some e
      → Keeps rs c e
  unfolding for_each
  rounds-Prepares [] c e h = subst (λ x. Keeps [] c x) (some-injective _ _ h) (Prepares-nil c, refl)
  rounds-Prepares (r ∷ rs) c e h =
      let (d, first, rest) =
        bind-eq-some (prepare_round storage_a storage_b offset c r)
          (λ t. for_each (prepare_round storage_a storage_b offset) t rs) h in
      let (p, o) = prepare_round-Prepares c r d first in
      let (q, o') = rounds-Prepares rs d e rest in (Prepares-append (r ∷ []) rs c d e p q, o' ∙ o)
