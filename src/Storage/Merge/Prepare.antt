-- ===== src/Storage/Merge/Prepare.antt =====
-- `preparationPass`: it orders the fields and writes the token frequencies.
use textiplex.Prelude.{ℕ, ◌+◌, Option, none, some, [], ◌∷◌, ◌++◌, length, map, ◌>>=◌}
use textiplex.Storage.Headers.{Token}
use textiplex.Storage.Segment.{Field, Storage, lookup_field}
use textiplex.Storage.Merge.Context.{
  MergeContext, Round, only_a, only_b, both, rounds, frequencies_of, unsafe_slice_bytes,
  offset_frequency, for_each,
}

module _ (storage_a storage_b : Storage) (document_offset : ℕ) where
  -- A's frequencies are written as they are, which panics when the token has none.
  unfoldable pub write_frequencies_a : MergeContext → Token → Option MergeContext
  write_frequencies_a ctx token = frequencies_of storage_a token >>= λ freqs.
      unsafe_slice_bytes freqs >>= λ written.
      some (record ctx { frequencies = ctx.frequencies ++ written })

  -- B's document indexes are moved behind A's.
  unfoldable pub write_frequencies_b : MergeContext → Token → Option MergeContext
  write_frequencies_b ctx token = frequencies_of storage_b token >>= λ freqs.
      some (record ctx {
        frequencies = ctx.frequencies ++ map (offset_frequency document_offset) freqs;
      })

  unfoldable pub prepare_field_a : MergeContext → ℕ × Field → Option MergeContext
  unfolding write_frequencies_a for_each
  prepare_field_a ctx (hash, field) = elim (lookup_field hash storage_b.fields) [
    | some _ ↦ some (record ctx {
      fields_order = record (ctx.fields_order) {
        collision = ctx.fields_order.collision ++ hash ∷ [];
      };
    })
    | none ↦
        for_each write_frequencies_a
          (record ctx {
            fields_order = record (ctx.fields_order) { a = ctx.fields_order.a ++ hash ∷ [] };
            posting_list_count = ctx.posting_list_count + length field.tokens;
          })
          field.tokens
  ]

  unfoldable pub prepare_field_b : MergeContext → ℕ × Field → Option MergeContext
  unfolding write_frequencies_b for_each
  prepare_field_b ctx (hash, field) = elim (lookup_field hash storage_a.fields) [
    | some _ ↦ some ctx
    | none ↦
        for_each write_frequencies_b
          (record ctx {
            fields_order = record (ctx.fields_order) { b = ctx.fields_order.b ++ hash ∷ [] };
            posting_list_count = ctx.posting_list_count + length field.tokens;
          })
          field.tokens
  ]

  abbrev counted : MergeContext → MergeContext
  counted ctx = record ctx { posting_list_count = ctx.posting_list_count + 1 }

  unfoldable pub prepare_round : MergeContext → Round → Option MergeContext
  unfolding write_frequencies_a write_frequencies_b
  prepare_round ctx (only_a token) = write_frequencies_a (counted ctx) token
  prepare_round ctx (only_b token) = write_frequencies_b (counted ctx) token
  prepare_round ctx (both token_a token_b) =
      write_frequencies_a (counted ctx) token_a >>= λ c. write_frequencies_b c token_b

  unfoldable pub prepare_collision : MergeContext → ℕ → Option MergeContext
  unfolding prepare_round for_each rounds
  prepare_collision ctx hash = lookup_field hash storage_a.fields >>= λ field_a.
      lookup_field hash storage_b.fields >>= λ field_b.
      for_each prepare_round ctx (rounds field_a.tokens field_b.tokens)

  unfoldable pub preparation_pass : MergeContext → Option MergeContext
  unfolding prepare_field_a prepare_field_b prepare_collision for_each
  preparation_pass ctx = for_each prepare_field_a ctx storage_a.fields >>= λ c.
      for_each prepare_field_b c storage_b.fields >>= λ d.
      for_each prepare_collision d d.fields_order.collision
