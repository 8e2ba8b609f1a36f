-- ===== src/Storage/Merge/Returns.antt =====
-- `Merge` returns on two segments whose tokens can all be read.
use textiplex.Prelude.{ℕ, ◌+◌, ◌≡◌, refl, some, none, List, [], ◌∷◌, All}
use textiplex.Bytes.{Bytes}
use textiplex.Roaring.{Roaring}
use textiplex.Storage.Headers.{Float32, Token}
use textiplex.Storage.Tokens.{Tokens}
use textiplex.Storage.Segment.{Storage}
use textiplex.Storage.Merge.Context.{
  MergeContext, PendingPostingList, Round, only_a, only_b, both, rounds,
}
use textiplex.Storage.Merge.Emit.{
  write_token, write_token_a, write_token_b, write_collision_token, add_section, emit_field_a,
  emit_field_b, emit_collision, emit_fields,
}
use textiplex.Storage.Merge.Assemble.{SegmentFile, merge, offset_of_b, merged_posting_list}
use textiplex.Storage.Merge.Plan.{HasUniqueKeys}
use textiplex.Storage.Merge.Postings.{all_bytes, write_posting_lists_lem}
use textiplex.Storage.Merge.Result.{Follows, merge-Follows}
use textiplex.Storage.Merge.Whole.{
  IsWholeToken, IsWhole, IsFilledToken, IsFilled, IsFound, All-snoc, for_each-total, fold-keeps,
  IsWholeRound, rounds-IsWholeRound,
}
use textiplex.Storage.Merge.Total.{
  off, HasBytes, IsShared, IsReady, Returns, tokens_whole_a, tokens_whole_b, preparation_pass-total,
}

module _ (r : Roaring) (storage_a storage_b : Storage) where
  abbrev Ready : MergeContext → Type 0
  Ready = IsReady r storage_a storage_b

  abbrev IsEmitted : MergeContext × Tokens → Type 0
  IsEmitted s = Ready s.0

  pending_a :
      (t : Token)
      → IsFilledToken storage_a t
      → HasBytes r storage_a storage_b
          (record { index_a = some t.posting_list_index; index_b = none })
  unfolding merged_posting_list
  pending_a t ((f, (l, e)), n) = (l.bytes, rw e refl)

  pending_b :
      (t : Token)
      → IsWholeToken storage_b t
      → HasBytes r storage_a storage_b
          (record { index_a = none; index_b = some t.posting_list_index })
  unfolding merged_posting_list
  pending_b t (f, (l, e)) = rw (e, merged_posting_list) (_, refl)

  pending_both :
      (t u : Token)
      → IsFilledToken storage_a t
      → IsWholeToken storage_b u
      → HasBytes r storage_a storage_b
          (record { index_a = some t.posting_list_index; index_b = some u.posting_list_index })
  unfolding merged_posting_list
  pending_both t u ((f, (l, e)), n) (g, (m, d)) = rw (e, d, merged_posting_list) (_, refl)

  write_token-IsEmitted :
      (t : Token) (n : ℕ) (p : PendingPostingList) (s : MergeContext × Tokens)
      → IsEmitted s
      → HasBytes r storage_a storage_b p
      → IsEmitted (write_token t n p s)
  unfolding write_token
  write_token-IsEmitted t n p (ctx, w) i h =
      (i.0, i.1, i.2, All-snoc (HasBytes r storage_a storage_b) ctx.pending_posting_lists p i.3 h)

  write_token_a-IsEmitted :
      (s : MergeContext × Tokens) (t : Token)
      → IsEmitted s
      → IsFilledToken storage_a t
      → IsEmitted (write_token_a s t)
  unfolding write_token_a
  write_token_a-IsEmitted s t i h = write_token-IsEmitted t t.frequency_count _ s i (pending_a t h)

  write_token_b-IsEmitted :
      (s : MergeContext × Tokens) (t : Token)
      → IsEmitted s
      → IsWholeToken storage_b t
      → IsEmitted (write_token_b s t)
  unfolding write_token_b
  write_token_b-IsEmitted s t i h = write_token-IsEmitted t t.frequency_count _ s i (pending_b t h)

  write_collision_token-IsEmitted :
      (s : MergeContext × Tokens) (x : Round)
      → IsEmitted s
      → IsWholeRound storage_a storage_b x
      → IsEmitted (write_collision_token s x)
  unfolding write_collision_token
  write_collision_token-IsEmitted s (only_a t) i h =
      write_token-IsEmitted t t.frequency_count _ s i (pending_a t h)
  write_collision_token-IsEmitted s (only_b t) i h =
      write_token-IsEmitted t t.frequency_count _ s i (pending_b t h)
  write_collision_token-IsEmitted s (both t u) i h =
      write_token-IsEmitted t (t.frequency_count + u.frequency_count) _ s i
        (pending_both t u h.0 h.1)

  all_bytes-total :
      (ps : List PendingPostingList)
      → All (HasBytes r storage_a storage_b) ps
      → (bs : List Bytes) × (all_bytes r (off r storage_a storage_b) storage_a storage_b ps
          ≡ some bs)
  all_bytes-total [] h = ([], refl)
  all_bytes-total (p ∷ ps) h =
      let (b, e) = h.0 in let (bs, d) = all_bytes-total ps h.1 in (b ∷ bs, rw (e, d) refl)

  module _ (whole_a : IsFilled storage_a) (whole_b : IsWhole storage_b) where
    emit_field_a-total :
        (ctx : MergeContext) (h : ℕ)
        → Ready ctx
        → IsFound storage_a h
        → Returns r storage_a storage_b
            (emit_field_a storage_a storage_b (offset_of_b storage_a) ctx h)
    unfolding emit_field_a add_section
    emit_field_a-total ctx h i (f, e) =
        rw (e, emit_field_a)
          (
            _,
            refl,
            fold-keeps IsEmitted (IsFilledToken storage_a) write_token_a write_token_a-IsEmitted
                (ctx, []) f.tokens i (tokens_whole_a r storage_a storage_b whole_a whole_b h f e),
          )

    emit_field_b-total :
        (ctx : MergeContext) (h : ℕ)
        → Ready ctx
        → IsFound storage_b h
        → Returns r storage_a storage_b
            (emit_field_b storage_a storage_b (offset_of_b storage_a) ctx h)
    unfolding emit_field_b add_section
    emit_field_b-total ctx h i (f, e) =
        rw (e, emit_field_b)
          (
            _,
            refl,
            fold-keeps IsEmitted (IsWholeToken storage_b) write_token_b write_token_b-IsEmitted
                (ctx, []) f.tokens i (tokens_whole_b r storage_a storage_b whole_a whole_b h f e),
          )

    module _ (average : ℕ → ℕ → Float32) where
      emit_collision-total :
          (ctx : MergeContext) (h : ℕ)
          → Ready ctx
          → IsShared r storage_a storage_b h
          → Returns r storage_a storage_b
              (emit_collision storage_a storage_b (offset_of_b storage_a) average ctx h)
      unfolding emit_collision add_section
      emit_collision-total ctx h i ((f, e), (g, d)) =
          rw (e, d, emit_collision)
            (
              _,
              refl,
              fold-keeps IsEmitted (IsWholeRound storage_a storage_b) write_collision_token
                  write_collision_token-IsEmitted (ctx, []) (rounds f.tokens g.tokens) i
                  (rounds-IsWholeRound storage_a storage_b f.tokens g.tokens
                    (tokens_whole_a r storage_a storage_b whole_a whole_b h f e)
                    (tokens_whole_b r storage_a storage_b whole_a whole_b h g d)),
            )

      emit_fields-total :
          (ctx : MergeContext)
          → Ready ctx
          → Returns r storage_a storage_b
              (emit_fields storage_a storage_b (offset_of_b storage_a) average ctx)
      unfolding emit_fields
      emit_fields-total ctx i =
          let (c, e, j) =
            for_each-total Ready (IsFound storage_a)
              (emit_field_a storage_a storage_b (offset_of_b storage_a)) emit_field_a-total ctx
              ctx.fields_order.a i i.0 in
          let (d, g, k) =
            for_each-total Ready (IsFound storage_b)
              (emit_field_b storage_a storage_b (offset_of_b storage_a)) emit_field_b-total c
              c.fields_order.b j j.1 in
          let (u, m, last) =
            for_each-total Ready (IsShared r storage_a storage_b)
              (emit_collision storage_a storage_b (offset_of_b storage_a) average)
              emit_collision-total d d.fields_order.collision k k.2 in
          (u, rw (e, g) m, last)

      -- For two segments whose tokens all have their entries and posting lists in range,
      -- the first one's at least one entry each, and in each of which every field name
      -- stands once: `Merge` returns, and the file holds the tokens of the planned
      -- rounds one after another, their entries in the same order, the matching totals
      -- in its header, and the posting lists of the rounds.
      pub merge-total :
          HasUniqueKeys storage_a.fields
          → HasUniqueKeys storage_b.fields
          → (file : SegmentFile) × (merge r average storage_a storage_b ≡ some file)
            × ((rs : List Round) × Follows r average storage_a storage_b rs file)
      unfolding merge
      merge-total ua ub =
          let (c, e, i) = preparation_pass-total r storage_a storage_b whole_a whole_b in
          let (d, g, j) = emit_fields-total c i in
          let (bs, k) = all_bytes-total d.pending_posting_lists j.3 in
          let (w, m, heads, grown) =
            write_posting_lists_lem r (offset_of_b storage_a) storage_a storage_b
              d.pending_posting_lists bs k in
          let run : (file : SegmentFile) × (merge r average storage_a storage_b ≡ some file) =
            rw (e, g, m, merge) (_, refl) in
          (run.0, run.1, merge-Follows r average storage_a storage_b run.0 ua ub run.1)
