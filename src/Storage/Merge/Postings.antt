-- ===== src/Storage/Merge/Postings.antt =====
-- The posting lists that a merge writes: a header for each, which points at its bytes, and the
-- documents of both storages in each.
use textiplex.Prelude.{
  ℕ, zero, suc, ◌+◌, ◌≡◌, refl, ◌∙◌, sym, Option, some, List, [], ◌∷◌, ◌++◌, length, slice,
  get_elem?, ◌>>=◌, arith, bind-eq-some, length-append, slice-append, Bool-cases, inl, inr, leb,
}
use mathlib.Core.List.{append_assoc, append-nil}
use mathlib.Core.Option.{some-injective}
use textiplex.Bytes.{Bytes}
use textiplex.Roaring.{Roaring}
use textiplex.Storage.Headers.{PostingListHeader, max_posting_list_headers_batch}
use textiplex.Storage.Segment.{Storage}
use textiplex.Storage.Merge.Context.{PendingPostingList, for_each}
use textiplex.Storage.Merge.Assemble.{
  PostingWriter, write_posting_list, flush_headers, write_pending, write_posting_lists,
  merged_posting_list,
}

pub write_posting_list_lem :
    (n : ℕ) (w : PostingWriter) (b : Bytes)
    → (flush_headers (write_posting_list n w b)
        ≡ flush_headers w ++ record { offset = w.offset; length = length b } ∷ [])
      × ((write_posting_list n w b).offset ≡ w.offset + length b)
      × ((write_posting_list n w b).bytes ≡ w.bytes ++ b)
unfolding write_posting_list flush_headers
write_posting_list_lem n w b =
    elim (Bool-cases
      (leb n (length (w.batch ++ record { offset = w.offset; length = length b } ∷ [])))) [
        | inl full ↦ rw full (simp (append_assoc, append-nil), refl, refl)
        | inr room ↦ rw room (simp append_assoc, refl, refl)
      ]

-- The headers of lists that lie one behind another.
abbrev pub headers_of : ℕ → List Bytes → List PostingListHeader
headers_of o [] = []
headers_of o (b ∷ bs) = record { offset = o; length = length b } ∷ headers_of (o + length b) bs

abbrev pub join : List Bytes → Bytes
join [] = []
join (b ∷ bs) = b ++ join bs

pub headers_of-slice :
    (bs : List Bytes) (pre : Bytes) (o i : ℕ) (h : PostingListHeader) (b : Bytes)
    → length pre ≡ o
    → get_elem? (headers_of o bs) i ≡ some h
    → get_elem? bs i ≡ some b
    → slice (pre ++ join bs) h.offset (h.offset + h.length) ≡ some b
headers_of-slice [] pre o i h b e p q = ground arith
headers_of-slice (x ∷ bs) pre o zero h b e p q =
    rw (← some-injective _ _ p, ← some-injective _ _ q, ← e) (slice-append pre x (join bs))
headers_of-slice (x ∷ bs) pre o (suc i) h b e p q =
    rw (← append_assoc pre x (join bs))
      (headers_of-slice bs (pre ++ x) (o + length x) i h b (omega (arith, length-append pre x)) p q)

module _ (r : Roaring) (offset : ℕ) (storage_a storage_b : Storage) where
  abbrev pub bytes_of : PendingPostingList → Option (Option Bytes)
  bytes_of = merged_posting_list r offset storage_a storage_b

  -- The lists of the pending entries, if each has one.
  abbrev pub all_bytes : List PendingPostingList → Option (List Bytes)
  all_bytes [] = some []
  all_bytes (p ∷ ps) = bytes_of p >>= λ found. found >>= λ b. all_bytes ps >>= λ bs. some (b ∷ bs)

  write_loop :
      (n : ℕ) (ps : List PendingPostingList) (w : PostingWriter) (bs : List Bytes)
      → all_bytes ps ≡ some bs
      → (v : PostingWriter) × (for_each (write_pending r offset storage_a storage_b n) w ps
          ≡ some v)
        × (flush_headers v ≡ flush_headers w ++ headers_of w.offset bs)
        × (v.bytes ≡ w.bytes ++ join bs)
  unfolding for_each write_pending
  write_loop n [] w bs h =
      rw (← some-injective _ _ h) (w, refl, sym (append-nil _), sym (append-nil _))
  write_loop n (p ∷ ps) w bs h =
      let (found, here, h₁) = bind-eq-some (bytes_of p) _ h in
      let (b, there, h₂) = bind-eq-some found _ h₁ in
      let (cs, rest, done) = bind-eq-some (all_bytes ps) _ h₂ in
      let (heads, moved, grown) = write_posting_list_lem n w b in
      let (v, run, heads', grown') = write_loop n ps (write_posting_list n w b) cs rest in
      (
        v,
        rw (here, there) run,
        heads' ∙ rw (heads, moved, ← some-injective _ _ done) (simp append_assoc),
        grown' ∙ rw (grown, ← some-injective _ _ done) (simp append_assoc),
      )

  -- The writer returns, its headers are those of the lists one behind another, whatever the size of
  -- the batches in which they are written, and its bytes are the lists.
  pub write_posting_lists_lem :
      (ps : List PendingPostingList) (bs : List Bytes)
      → all_bytes ps ≡ some bs
      → (w : PostingWriter) × (write_posting_lists r offset storage_a storage_b ps ≡ some w)
        × (flush_headers w ≡ headers_of 0 bs)
        × (w.bytes ≡ join bs)
  unfolding write_posting_lists flush_headers
  write_posting_lists_lem ps bs h =
      write_loop (max_posting_list_headers_batch (length ps)) ps
        (record { written = []; batch = []; offset = 0; bytes = [] }) bs h

  -- When every pending entry has its list of bytes, the header that the merge writes at a
  -- position selects exactly the bytes of the list at that position from the data written.
  pub write_posting_lists-slice :
      (ps : List PendingPostingList) (bs : List Bytes) (w : PostingWriter) (i : ℕ)
      (h : PostingListHeader) (b : Bytes)
      → all_bytes ps ≡ some bs
      → write_posting_lists r offset storage_a storage_b ps ≡ some w
      → get_elem? (flush_headers w) i ≡ some h
      → get_elem? bs i ≡ some b
      → slice w.bytes h.offset (h.offset + h.length) ≡ some b
  write_posting_lists-slice ps bs w i h b planned run p q =
      let (v, run', heads, grown) = write_posting_lists_lem ps bs planned in
      let same : v ≡ w = some-injective _ _ (sym run' ∙ run) in
      rw (← same, grown) (headers_of-slice bs [] 0 i h b refl (rw (← same, heads) at p) q)
