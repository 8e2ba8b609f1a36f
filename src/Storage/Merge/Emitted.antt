-- ===== src/Storage/Merge/Emitted.antt =====
-- The phases that write the fields write the tokens of the plan, one after another.
use textiplex.Prelude.{
  ℕ, ◌+◌, ◌≡◌, refl, ◌∙◌, List, [], ◌∷◌, ◌++◌, length, map, arith, length-append,
}
use mathlib.Core.List.{append_assoc, append-nil, map-append}
use textiplex.Storage.Headers.{FieldHeader, DocumentsLengths}
use textiplex.Storage.Tokens.{Tokens}
use textiplex.Storage.Merge.Context.{MergeContext, FieldSection, Round, only_a, only_b, both}
use textiplex.Storage.Merge.Emit.{
  write_token_a, write_token_b, write_collision_token, fold, add_section,
}
use textiplex.Storage.Merge.Plan.{entries_of, pending_of, sum_entries, place, tokens_of}

abbrev advance_by : Round → MergeContext → MergeContext
advance_by r ctx = record ctx {
  posting_list_cursor = ctx.posting_list_cursor + 1;
  frequencies_cursor = ctx.frequencies_cursor + entries_of r;
  pending_posting_lists = ctx.pending_posting_lists ++ pending_of r ∷ [];
}

abbrev advance : List Round → MergeContext → MergeContext
advance [] ctx = ctx
advance (r ∷ rs) ctx = advance rs (advance_by r ctx)

write_collision_token_lem :
    (r : Round) (ctx : MergeContext) (w : Tokens)
    → write_collision_token (ctx, w) r
      ≡ (advance_by r ctx, w ++ place ctx.posting_list_cursor ctx.frequencies_cursor (r ∷ []))
unfolding write_collision_token
write_collision_token_lem (only_a t) ctx w = refl
write_collision_token_lem (only_b t) ctx w = refl
write_collision_token_lem (both a b) ctx w = refl

fold-place :
    (rs : List Round) (ctx : MergeContext) (w : Tokens)
    → fold write_collision_token (ctx, w) rs
      ≡ (advance rs ctx, w ++ place ctx.posting_list_cursor ctx.frequencies_cursor rs)
unfolding fold
fold-place [] ctx w = rw append-nil
fold-place (r ∷ rs) ctx w =
    rw (write_collision_token_lem r ctx w)
      (rw (fold-place rs (advance_by r ctx) _) (simp append_assoc))

pub fold-write_token_a :
    (ts : Tokens) (s : MergeContext × Tokens)
    → fold write_token_a s ts ≡ fold write_collision_token s (map only_a ts)
unfolding fold write_token_a write_collision_token
fold-write_token_a [] s = refl
fold-write_token_a (t ∷ ts) s = fold-write_token_a ts _

pub fold-write_token_b :
    (ts : Tokens) (s : MergeContext × Tokens)
    → fold write_token_b s ts ≡ fold write_collision_token s (map only_b ts)
unfolding fold write_token_b write_collision_token
fold-write_token_b [] s = refl
fold-write_token_b (t ∷ ts) s = fold-write_token_b ts _

-- From `c` to `d` the tokens of `rs` have been written, and nothing else has changed.
pub record Emits (rs : List Round) (c d : MergeContext) : Type 0 where
  pub posting_lists : d.posting_list_cursor ≡ c.posting_list_cursor + length rs
  pub entries : d.frequencies_cursor ≡ c.frequencies_cursor + sum_entries rs
  pub pending : d.pending_posting_lists ≡ c.pending_posting_lists ++ map pending_of rs
  pub order : d.fields_order ≡ c.fields_order
  pub frequencies : d.frequencies ≡ c.frequencies
  pub tokens :
      tokens_of d.sections
      ≡ tokens_of c.sections ++ place c.posting_list_cursor c.frequencies_cursor rs

tokens_of-append : (xs ys : List FieldSection) → tokens_of (xs ++ ys) ≡ tokens_of xs ++ tokens_of ys
tokens_of-append [] ys = refl
tokens_of-append (x ∷ xs) ys = simp (tokens_of-append xs ys, append_assoc)

advance_cursor :
    (rs : List Round) (c : MergeContext)
    → ((advance rs c).posting_list_cursor ≡ c.posting_list_cursor + length rs)
      × ((advance rs c).frequencies_cursor ≡ c.frequencies_cursor + sum_entries rs)
advance_cursor [] c = omega arith
advance_cursor (r ∷ rs) c = omega (arith, advance_cursor rs (advance_by r c))

advance_rest :
    (rs : List Round) (c : MergeContext)
    → ((advance rs c).pending_posting_lists ≡ c.pending_posting_lists ++ map pending_of rs)
      × ((advance rs c).fields_order ≡ c.fields_order)
      × ((advance rs c).frequencies ≡ c.frequencies)
      × ((advance rs c).sections ≡ c.sections)
advance_rest [] c = (rw append-nil, refl, refl, refl)
advance_rest (r ∷ rs) c =
    let (p, o, f, s) = advance_rest rs (advance_by r c) in
    (p ∙ append_assoc c.pending_posting_lists (pending_of r ∷ []) (map pending_of rs), o, f, s)

pub section-Emits :
    (h : FieldHeader) (l : DocumentsLengths) (rs : List Round) (c : MergeContext)
    → Emits rs c (add_section h l (fold write_collision_token (c, []) rs))
unfolding add_section
section-Emits h l rs c = rw (fold-place rs c []) (
    let (p, o, f, s) = advance_rest rs c in
    let (i, j) = advance_cursor rs c in
    record {
      posting_lists = i;
      entries = j;
      pending = p;
      order = o;
      frequencies = f;
      tokens = simp (tokens_of-append, s, append-nil);
    })

place-append :
    (pc fc : ℕ) (rs ss : List Round)
    → place pc fc (rs ++ ss) ≡ place pc fc rs ++ place (pc + length rs) (fc + sum_entries rs) ss
place-append pc fc [] ss = ground (arith)
place-append pc fc (r ∷ rs) ss = rw (place-append (pc + 1) (fc + entries_of r) rs ss) (ground arith)

sum_entries-append : (rs ss : List Round) → sum_entries (rs ++ ss) ≡ sum_entries rs + sum_entries ss
sum_entries-append [] ss = omega arith
sum_entries-append (r ∷ rs) ss = omega (arith, sum_entries-append rs ss)

pub Emits-nil : (c : MergeContext) → Emits [] c c
Emits-nil c = record {
  posting_lists = omega arith;
  entries = omega arith;
  pending = rw append-nil;
  order = refl;
  frequencies = refl;
  tokens = rw append-nil;
}

pub Emits-append :
    (rs ss : List Round) (c d e : MergeContext) → Emits rs c d → Emits ss d e → Emits (rs ++ ss) c e
Emits-append rs ss c d e p q = record {
  posting_lists = omega (arith, p.posting_lists, q.posting_lists, length-append rs ss);
  entries = omega (arith, p.entries, q.entries, sum_entries-append rs ss);
  pending = rw (q.pending, p.pending) (simp (append_assoc, map-append));
  order = q.order ∙ p.order;
  frequencies = q.frequencies ∙ p.frequencies;
  tokens = rw (q.tokens, p.tokens, p.posting_lists, p.entries, place-append) (simp append_assoc);
}
