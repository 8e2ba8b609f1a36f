-- ===== src/Storage/Merge/Result.antt =====
-- What `Merge` leaves in the file, when it returns.
use textiplex.Prelude.{
  ℕ, ◌≡◌, refl, ap, ◌∙◌, sym, some, List, [], length, map, get_elem?, arith, subst, bind-eq-some,
}
use mathlib.Core.Option.{some-injective}
use textiplex.Roaring.{Roaring}
use textiplex.Storage.Headers.{Float32, Token}
use textiplex.Storage.Segment.{Storage}
use textiplex.Storage.Merge.Context.{Round}
use textiplex.Storage.Merge.Prepare.{preparation_pass}
use textiplex.Storage.Merge.Emit.{emit_fields}
use textiplex.Storage.Merge.Assemble.{
  SegmentFile, PostingWriter, merge, offset_of_b, initial_context, write_posting_lists,
  flush_headers,
}
use textiplex.Storage.Merge.Plan.{
  pending_of, sum_entries, place, blocks, HasUniqueKeys, merge_order, plan, tokens_of,
}
use textiplex.Storage.Merge.Phases.{emit_fields-Emits}
use textiplex.Storage.Merge.Prepares.{preparation_pass-Prepares}
use textiplex.Storage.Merge.Aligned.{PointsAt, place-PointsAt}

module _ (r : Roaring) (average : ℕ → ℕ → Float32) (storage_a storage_b : Storage) where
  -- The file holds what the rounds of the plan stand for.
  pub record Follows (rs : List Round) (file : SegmentFile) : Type 0 where
    pub planned : plan storage_a storage_b (merge_order storage_a storage_b) ≡ some rs
    pub tokens : tokens_of file.sections ≡ place 0 0 rs
    pub entries :
        blocks storage_a storage_b (offset_of_b storage_a) rs ≡ some file.token_frequencies
    pub posting_lists : file.header.total_posting_lists ≡ length rs
    pub total_entries : file.header.total_token_frequencies ≡ sum_entries rs
    pub writer : PostingWriter
    pub written :
        write_posting_lists r (offset_of_b storage_a) storage_a storage_b (map pending_of rs)
        ≡ some writer
    pub headers : file.posting_list_headers ≡ flush_headers writer
    pub bytes : file.posting_lists_bytes ≡ writer.bytes

  -- A merge that returns has written the tokens of the plan, one after another, and the entries of
  -- the token frequencies in the same order.
  pub merge-Follows :
      (file : SegmentFile)
      → HasUniqueKeys storage_a.fields
      → HasUniqueKeys storage_b.fields
      → merge r average storage_a storage_b ≡ some file
      → (rs : List Round) × Follows rs file
  unfolding merge
  merge-Follows file ua ub run =
      let offset = offset_of_b storage_a in
      let (c, prepared, run₁) =
        bind-eq-some (preparation_pass storage_a storage_b offset initial_context) _ run in
      let (d, emitted, run₂) =
        bind-eq-some (emit_fields storage_a storage_b offset average c) _ run₁ in
      let (w, written, done) =
        bind-eq-some (write_posting_lists r offset storage_a storage_b d.pending_posting_lists) _
          run₂ in
      let (rs, planned, order, p) =
        preparation_pass-Prepares storage_a storage_b offset initial_context c ua ub refl
          prepared in
      let (ss, planned', e) = emit_fields-Emits storage_a storage_b offset average c d emitted in
      let same : ss ≡ rs =
        some-injective _ _ (sym planned' ∙ ap (plan storage_a storage_b) order ∙ planned) in
      (
        rs,
        subst (Follows rs) (some-injective _ _ done) (record {
          planned = planned;
          tokens = e.tokens ∙ rw (p.sections, p.cursor, p.frequencies_cursor, same);
          entries = p.planned ∙ ap some (sym (e.frequencies ∙ p.frequencies));
          posting_lists = omega (arith, e.posting_lists, p.cursor, ap (λ l. length l) same);
          total_entries =
              omega (arith, e.entries, p.frequencies_cursor, ap (λ l. sum_entries l) same);
          writer = w;
          written = rw (e.pending, p.pending, same) at written;
          headers = refl;
          bytes = refl;
        }),
      )

  -- For two storages in each of which every field name stands once: when `Merge` returns,
  -- every token of the result points at its own entries, which are those of A's token
  -- followed by those of B's with their document indexes moved, and its posting list index
  -- is its own position among the tokens.
  pub merge-PointsAt :
      (file : SegmentFile) (i : ℕ) (t : Token)
      → HasUniqueKeys storage_a.fields
      → HasUniqueKeys storage_b.fields
      → merge r average storage_a storage_b ≡ some file
      → get_elem? (tokens_of file.sections) i ≡ some t
      → (rs : List Round) × (plan storage_a storage_b (merge_order storage_a storage_b) ≡ some rs)
        × PointsAt storage_a storage_b (offset_of_b storage_a) rs 0 file.token_frequencies i t
  merge-PointsAt file i t ua ub run found =
      let (rs, f) = merge-Follows file ua ub run in
      (
        rs,
        f.planned,
        place-PointsAt storage_a storage_b (offset_of_b storage_a) rs 0 0 i t []
            file.token_frequencies refl f.entries (rw f.tokens at found),
      )
