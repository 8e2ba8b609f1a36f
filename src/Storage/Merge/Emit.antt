-- ===== src/Storage/Merge/Emit.antt =====
-- The phases of `Merge` that write the fields: those of A alone, those of B alone, and those of
-- both.
use textiplex.Prelude.{ℕ, ◌+◌, Option, none, some, List, [], ◌∷◌, ◌++◌, length, map, ◌>>=◌}
use textiplex.Storage.Headers.{Float32, FieldHeader, Token, DocumentsLengths}
use textiplex.Storage.Tokens.{Tokens}
use textiplex.Storage.Segment.{Field, Storage, lookup_field}
use textiplex.Storage.Merge.Context.{
  MergeContext, PendingPostingList, Round, only_a, only_b, both, rounds,
  count_tokens_between_collision_fields, offset_length, for_each,
}

-- A token is written with the cursors for its indexes, and its posting list is noted for later.
unfoldable pub write_token :
    Token → ℕ → PendingPostingList → MergeContext × Tokens → MergeContext × Tokens
write_token token frequency_count pending (ctx, written) = (
  record ctx {
    posting_list_cursor = ctx.posting_list_cursor + 1;
    frequencies_cursor = ctx.frequencies_cursor + frequency_count;
    pending_posting_lists = ctx.pending_posting_lists ++ pending ∷ [];
  },
  written
      ++ record token {
        frequency_count = frequency_count;
        posting_list_index = ctx.posting_list_cursor;
        frequencies_index = ctx.frequencies_cursor;
      }
        ∷ [],
)

unfoldable pub write_token_a : MergeContext × Tokens → Token → MergeContext × Tokens
unfolding write_token
write_token_a s token =
    write_token token token.frequency_count
      (record { index_a = some token.posting_list_index; index_b = none }) s

unfoldable pub write_token_b : MergeContext × Tokens → Token → MergeContext × Tokens
unfolding write_token
write_token_b s token =
    write_token token token.frequency_count
      (record { index_a = none; index_b = some token.posting_list_index }) s

-- `writeCollisionToken`: a round hands it a token of A, one of B, or both.
unfoldable pub write_collision_token : MergeContext × Tokens → Round → MergeContext × Tokens
unfolding write_token
write_collision_token s (both token_a token_b) =
    write_token token_a (token_a.frequency_count + token_b.frequency_count)
      (record {
        index_a = some token_a.posting_list_index;
        index_b = some token_b.posting_list_index;
      })
      s
write_collision_token s (only_a token_a) =
    write_token token_a token_a.frequency_count
      (record { index_a = some token_a.posting_list_index; index_b = none }) s
write_collision_token s (only_b token_b) =
    write_token token_b token_b.frequency_count
      (record { index_a = none; index_b = some token_b.posting_list_index }) s

-- A loop that cannot panic.
unfoldable pub fold : {S A : Type 0} → (S → A → S) → S → List A → S
fold step s [] = s
fold step s (x ∷ xs) = fold step (step s x) xs

unfoldable pub add_section : FieldHeader → DocumentsLengths → MergeContext × Tokens → MergeContext
add_section header lengths (ctx, written) = record ctx {
  sections = ctx.sections ++ record { header = header; lengths = lengths; tokens = written } ∷ [];
}

abbrev header_of : ℕ → Field → FieldHeader
header_of hash field = record {
  hash = hash;
  avg_document_length = field.avg_document_length;
  total_documents_length = field.total_documents_length;
  token_count = length field.tokens;
  total_token_frequencies = field.total_token_frequencies_count;
  document_length_count = length field.document_lengths;
}

module _ (storage_a storage_b : Storage) (document_offset : ℕ) where
  unfoldable pub emit_field_a : MergeContext → ℕ → Option MergeContext
  unfolding write_token_a fold add_section
  emit_field_a ctx hash = lookup_field hash storage_a.fields >>= λ field. some (
      add_section (header_of hash field) field.document_lengths
        (fold write_token_a (ctx, []) field.tokens))

  unfoldable pub emit_field_b : MergeContext → ℕ → Option MergeContext
  unfolding write_token_b fold add_section offset_length
  emit_field_b ctx hash = lookup_field hash storage_b.fields >>= λ field. some (
      add_section (header_of hash field)
        (map (offset_length document_offset) field.document_lengths)
        (fold write_token_b (ctx, []) field.tokens))

  -- `average total count` is `float32(float64(total) / float64(count))`.
  module _ (average : ℕ → ℕ → Float32) where
    abbrev collision_header : ℕ → Field → Field → FieldHeader
    collision_header hash field_a field_b =
        let total = field_a.total_documents_length + field_b.total_documents_length in
        let count = length field_a.document_lengths + length field_b.document_lengths in
        record {
          hash = hash;
          avg_document_length = average total count;
          total_documents_length = total;
          token_count = count_tokens_between_collision_fields field_a.tokens field_b.tokens;
          total_token_frequencies =
              field_a.total_token_frequencies_count + field_b.total_token_frequencies_count;
          document_length_count = count;
        }

    unfoldable pub emit_collision : MergeContext → ℕ → Option MergeContext
    unfolding write_collision_token fold add_section offset_length rounds
        count_tokens_between_collision_fields
    emit_collision ctx hash = lookup_field hash storage_a.fields >>= λ field_a.
        lookup_field hash storage_b.fields >>= λ field_b. some (
          add_section (collision_header hash field_a field_b)
            (field_a.document_lengths
              ++ map (offset_length document_offset) field_b.document_lengths)
            (fold write_collision_token (ctx, []) (rounds field_a.tokens field_b.tokens)))

    -- Phases 2, 3 and 4.
    unfoldable pub emit_fields : MergeContext → Option MergeContext
    unfolding emit_field_a emit_field_b emit_collision for_each
    emit_fields ctx = for_each emit_field_a ctx ctx.fields_order.a >>= λ c.
        for_each emit_field_b c c.fields_order.b >>= λ d.
        for_each emit_collision d d.fields_order.collision
