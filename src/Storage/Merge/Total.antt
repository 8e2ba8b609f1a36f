-- ===== src/Storage/Merge/Total.antt =====
-- `preparationPass` returns on two segments whose tokens can all be read.
use textiplex.Prelude.{
  ℕ, ◌+◌, ◌<◌, length, arith, ◌≡◌, refl, Option, some, [], ◌∷◌, ◌++◌, All, Option-cases, inl, inr,
  map,
}
use textiplex.Bytes.{Bytes}
use textiplex.Roaring.{Roaring}
use textiplex.Storage.Headers.{Token}
use textiplex.Storage.Segment.{Field, Storage, lookup_field}
use textiplex.Storage.Merge.Context.{
  MergeContext, PendingPostingList, Round, only_a, only_b, both, rounds, offset_frequency,
}
use textiplex.Storage.Merge.Prepare.{
  write_frequencies_a, write_frequencies_b, prepare_field_a, prepare_field_b, prepare_round,
  prepare_collision, preparation_pass,
}
use textiplex.Storage.Merge.Assemble.{offset_of_b, initial_context, merged_posting_list}
use textiplex.Storage.Merge.Whole.{
  IsWholeToken, IsWhole, IsFilledToken, IsFilled, IsFound, All-lookup_field, fields-IsFound,
  length-frequencies_of, unsafe_slice_bytes-nonempty, All-snoc, All-zip, for_each-total,
  IsWholeRound, rounds-IsWholeRound,
}

module _ (r : Roaring) (storage_a storage_b : Storage) where
  abbrev pub off : ℕ
  off = offset_of_b storage_a

  -- The pending entry has a list of bytes.
  abbrev pub HasBytes : PendingPostingList → Type 0
  HasBytes p = (b : Bytes) × (merged_posting_list r off storage_a storage_b p ≡ some (some b))

  abbrev pub IsShared : ℕ → Type 0
  IsShared h = IsFound storage_a h × IsFound storage_b h

  -- Every name in the context is a field's, and every pending entry has a list of bytes.
  abbrev pub IsReady : MergeContext → Type 0
  IsReady ctx =
      All (IsFound storage_a) ctx.fields_order.a
      × All (IsFound storage_b) ctx.fields_order.b
      × All IsShared ctx.fields_order.collision
      × All HasBytes ctx.pending_posting_lists

  abbrev pub Returns : Option MergeContext → Type 0
  Returns o = (c : MergeContext) × (o ≡ some c) × IsReady c

  write_frequencies_a-total :
      (ctx : MergeContext) (t : Token)
      → IsReady ctx
      → IsFilledToken storage_a t
      → Returns (write_frequencies_a storage_a storage_b off ctx t)
  unfolding write_frequencies_a
  write_frequencies_a-total ctx t i (((f, e), l), n) =
      let filled : 0 < length f = omega (arith, length-frequencies_of storage_a t f e, n) in
      (
        record ctx { frequencies = ctx.frequencies ++ f },
        rw (e, unsafe_slice_bytes-nonempty f filled) refl,
        i,
      )

  write_frequencies_b-total :
      (ctx : MergeContext) (t : Token)
      → IsReady ctx
      → IsWholeToken storage_b t
      → Returns (write_frequencies_b storage_a storage_b off ctx t)
  unfolding write_frequencies_b
  write_frequencies_b-total ctx t i ((f, e), l) =
      (record ctx { frequencies = ctx.frequencies ++ map (offset_frequency off) f }, rw e refl, i)

  prepare_field_a-total :
      (ctx : MergeContext) (p : ℕ × Field)
      → IsReady ctx
      → IsFound storage_a p.0 × All (IsFilledToken storage_a) p.1.tokens
      → Returns (prepare_field_a storage_a storage_b off ctx p)
  unfolding prepare_field_a
  prepare_field_a-total ctx (h, f) i (found, whole) =
      elim (Option-cases (lookup_field h storage_b.fields)) [
        | inr (g, e) ↦ (
          record ctx {
            fields_order = record (ctx.fields_order) {
              collision = ctx.fields_order.collision ++ h ∷ [];
            };
          },
          rw (e, prepare_field_a) refl,
          (i.0, i.1, All-snoc IsShared ctx.fields_order.collision h i.2 (found, (g, e)), i.3),
        )
        | inl e ↦
            rw (e, prepare_field_a)
              (for_each-total IsReady (IsFilledToken storage_a)
                (write_frequencies_a storage_a storage_b off) (λ c t. write_frequencies_a-total c t)
                _ f.tokens
                (All-snoc (IsFound storage_a) ctx.fields_order.a h i.0 found, i.1, i.2, i.3) whole)
      ]

  prepare_field_b-total :
      (ctx : MergeContext) (p : ℕ × Field)
      → IsReady ctx
      → IsFound storage_b p.0 × All (IsWholeToken storage_b) p.1.tokens
      → Returns (prepare_field_b storage_a storage_b off ctx p)
  unfolding prepare_field_b
  prepare_field_b-total ctx (h, f) i (found, whole) =
      elim (Option-cases (lookup_field h storage_a.fields)) [
        | inr (g, e) ↦ (ctx, rw (e, prepare_field_b) refl, i)
        | inl e ↦
            rw (e, prepare_field_b)
              (for_each-total IsReady (IsWholeToken storage_b)
                (write_frequencies_b storage_a storage_b off) (λ c t. write_frequencies_b-total c t)
                _ f.tokens
                (i.0, All-snoc (IsFound storage_b) ctx.fields_order.b h i.1 found, i.2, i.3) whole)
      ]

  prepare_round-total :
      (ctx : MergeContext) (x : Round)
      → IsReady ctx
      → IsWholeRound storage_a storage_b x
      → Returns (prepare_round storage_a storage_b off ctx x)
  unfolding prepare_round
  prepare_round-total ctx (only_a t) i w = write_frequencies_a-total _ t i w
  prepare_round-total ctx (only_b t) i w = write_frequencies_b-total _ t i w
  prepare_round-total ctx (both t u) i w =
      let counted : MergeContext = record ctx { posting_list_count = ctx.posting_list_count + 1 } in
      let (c, e, j) = write_frequencies_a-total counted t i w.0 in
      let (d, g, k) = write_frequencies_b-total c u j w.1 in (d, rw e g, k)

  module _ (whole_a : IsFilled storage_a) (whole_b : IsWhole storage_b) where
    pub tokens_whole_a :
        (h : ℕ) (f : Field)
        → lookup_field h storage_a.fields ≡ some f
        → All (IsFilledToken storage_a) f.tokens
    tokens_whole_a h f e =
        All-lookup_field (λ f. All (IsFilledToken storage_a) f.tokens) storage_a.fields h f whole_a
          e

    pub tokens_whole_b :
        (h : ℕ) (f : Field)
        → lookup_field h storage_b.fields ≡ some f
        → All (IsWholeToken storage_b) f.tokens
    tokens_whole_b h f e =
        All-lookup_field (λ f. All (IsWholeToken storage_b) f.tokens) storage_b.fields h f whole_b e

    prepare_collision-total :
        (ctx : MergeContext) (h : ℕ)
        → IsReady ctx
        → IsShared h
        → Returns (prepare_collision storage_a storage_b off ctx h)
    unfolding prepare_collision
    prepare_collision-total ctx h i ((f, e), (g, d)) =
        rw (e, d)
          (for_each-total IsReady (IsWholeRound storage_a storage_b)
            (prepare_round storage_a storage_b off) prepare_round-total ctx
            (rounds f.tokens g.tokens) i
            (rounds-IsWholeRound storage_a storage_b f.tokens g.tokens (tokens_whole_a h f e)
              (tokens_whole_b h g d)))

    pub preparation_pass-total : Returns (preparation_pass storage_a storage_b off initial_context)
    unfolding preparation_pass
    preparation_pass-total =
        let (c, e, i) =
          for_each-total IsReady
            (λ p. IsFound storage_a p.0 × All (IsFilledToken storage_a) p.1.tokens)
            (prepare_field_a storage_a storage_b off) prepare_field_a-total initial_context
            storage_a.fields (tt, tt, tt, tt)
            (All-zip (λ p. IsFound storage_a p.0) (λ p. All (IsFilledToken storage_a) p.1.tokens)
              storage_a.fields (fields-IsFound storage_a.fields) whole_a) in
        let (d, g, j) =
          for_each-total IsReady
            (λ p. IsFound storage_b p.0 × All (IsWholeToken storage_b) p.1.tokens)
            (prepare_field_b storage_a storage_b off) prepare_field_b-total c storage_b.fields i
            (All-zip (λ p. IsFound storage_b p.0) (λ p. All (IsWholeToken storage_b) p.1.tokens)
              storage_b.fields (fields-IsFound storage_b.fields) whole_b) in
        let (u, k, last) =
          for_each-total IsReady IsShared (prepare_collision storage_a storage_b off)
            prepare_collision-total d d.fields_order.collision j j.2 in
        (u, rw (e, g) k, last)
