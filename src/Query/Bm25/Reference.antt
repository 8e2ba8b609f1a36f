-- ===== src/Query/Bm25/Reference.antt =====
-- The accumulation of a token's scores against one document at a time: unrolling, and the choice of
-- how the tables are read, change nothing.
use textiplex.Prelude.{
  ℕ, ◌<◌, ◌≡◌, refl, sym, ap, ◌∙◌, Bool, true, false, Option, none, some, List, [], ◌∷◌, ◌++◌, ◌≢◌,
  Option-cases, length, map, All, All-map, IsChain, ◌>>=◌, inl, inr,
}
use textiplex.Storage.Headers.{
  Float32, TokenFrequencyEntry, DocumentLengthEntry, TokenFrequencies, DocumentsLengths,
}
use textiplex.Roaring.{Roaring, IsRoaring}
use textiplex.Storage.Segment.{Storage, Field}
use textiplex.Query.Scoring.{Score, add_score}
use textiplex.Query.Bm25.{Floats}
use textiplex.Query.Bm25.Accumulate.{
  Pass, Weights, score_of, add_all, group_step, remainder, unrolled, dense_dense, dense_sparse,
  sparse_dense, sparse_sparse, accumulate_docs, accumulate_list, resolved,
}
use textiplex.Query.Bm25.Reads.{IsSorted, lookup, Serves, read_lem}
use textiplex.Query.Bm25.Dense.{Serves-length}

abbrev pub document_of : TokenFrequencyEntry → ℕ
document_of x = x.document_index

abbrev pub frequency_of : TokenFrequencyEntry → ℕ
frequency_of x = x.frequency

abbrev pub index_of : DocumentLengthEntry → ℕ
index_of x = x.index

abbrev pub length_of : DocumentLengthEntry → ℕ
length_of x = x.length

IsChain-back : (xs ys : List ℕ) → IsChain ◌<◌ (xs ++ ys) → IsChain ◌<◌ ys
IsChain-back [] ys c = c
IsChain-back (x ∷ xs) ys c = IsChain-back xs ys c.1

bind_assoc :
    {A B C : Type 0} (m : Option A) (f : A → Option B) (g : B → Option C)
    → (m >>= f >>= g) ≡ (m >>= λ a. f a >>= g)
bind_assoc none f g = refl
bind_assoc (some a) f g = refl

module _ (fl : Floats) (w : Weights) (idf_boost : ℕ) (tf dl : ℕ → ℕ) where
  -- The reference: each document in turn, with its own frequency and length.
  unfoldable pub add_documents : List ℕ → List Score × ℕ → Option (List Score × ℕ)
  add_documents [] s = some s
  add_documents (d ∷ ds) s =
      add_score fl.add s.1 d (score_of fl w idf_boost (tf d) (dl d)) s.0 >>= λ t. add_documents ds t

  add_all_lem :
      (ds : List ℕ) (s : List Score × ℕ)
      → add_all fl w idf_boost ds (map tf ds) (map dl ds) s ≡ add_documents ds s
  unfolding add_all add_documents
  add_all_lem [] s = refl
  add_all_lem (d ∷ ds) s =
      ap (λ k. add_score fl.add s.1 d (score_of fl w idf_boost (tf d) (dl d)) s.0 >>= k)
        (λ i t. add_all_lem ds t i)

  add_documents-append :
      (ds es : List ℕ) (s : List Score × ℕ)
      → add_documents (ds ++ es) s ≡ (add_documents ds s >>= add_documents es)
  unfolding add_documents
  add_documents-append [] es s = refl
  add_documents-append (d ∷ ds) es s =
      ap (λ k. add_score fl.add s.1 d (score_of fl w idf_boost (tf d) (dl d)) s.0 >>= k)
        (λ i t. add_documents-append ds es t i)
      ∙ sym (bind_assoc _ (add_documents ds) (add_documents es))

  abbrev result : Option Pass → Option (List Score × ℕ)
  result m = m >>= λ q. some (q.scores, q.guess)

  -- A pass whose tables serve the documents.
  abbrev IsReady : Bool → Bool → List ℕ → Pass → Type 0
  IsReady freq_dense dl_dense ds p =
      IsChain ◌<◌ ds
      × Serves document_of frequency_of freq_dense p.freqs tf ds
      × Serves index_of length_of dl_dense p.doc_lengths dl ds

  finish :
      (es : List ℕ) (m : Option (List Score × ℕ)) (made : List Score × ℕ → Pass)
      (k : Pass → Option Pass)
      → ((s : List Score × ℕ) → result (k (made s)) ≡ add_documents es s)
      → result (m >>= (λ s. some (made s)) >>= k) ≡ (m >>= add_documents es)
  finish es none made k h = refl
  finish es (some s) made k h = h s

  -- A step, with any continuation that the rest of the documents agree on.
  step_lem :
      (freq_dense dl_dense : Bool) (d : ℕ) (ds es : List ℕ) (p : Pass) (k : Pass → Option Pass)
      → IsReady freq_dense dl_dense ((d ∷ ds) ++ es) p
      → ((q : Pass)
          → IsReady freq_dense dl_dense es q
          → result (k q) ≡ add_documents es (q.scores, q.guess))
      → result (group_step fl w idf_boost freq_dense dl_dense (d ∷ ds) p >>= k)
        ≡ add_documents ((d ∷ ds) ++ es) (p.scores, p.guess)
  unfolding group_step
  step_lem freq_dense dl_dense d ds es p k (c, freqs, lengths) agree =
      let (fs, read_f, serves_f) =
        read_lem document_of frequency_of freq_dense p.freqs tf d ds es c freqs in
      let (ls, read_l, serves_l) =
        read_lem index_of length_of dl_dense p.doc_lengths dl d ds es c lengths in
      rw
        (
          read_f,
          read_l,
          add_all_lem (d ∷ ds) (p.scores, p.guess),
          add_documents-append (d ∷ ds) es (p.scores, p.guess),
        )
        (finish es (add_documents (d ∷ ds) (p.scores, p.guess))
          (λ s. record { freqs = fs; doc_lengths = ls; guess = s.1; scores = s.0 }) k
          (λ s. agree _ (IsChain-back (d ∷ ds) es c, serves_f, serves_l)))

  remainder_lem :
      (freq_dense dl_dense : Bool) (ds : List ℕ) (p : Pass)
      → IsReady freq_dense dl_dense ds p
      → result (remainder fl w idf_boost freq_dense dl_dense ds p)
        ≡ add_documents ds (p.scores, p.guess)
  unfolding remainder add_documents
  remainder_lem freq_dense dl_dense [] p ready = refl
  remainder_lem freq_dense dl_dense (d ∷ ds) p ready =
      step_lem freq_dense dl_dense d [] ds p _ ready (remainder_lem freq_dense dl_dense ds)

  unrolled_lem :
      (freq_dense dl_dense : Bool) (ds : List ℕ) (p : Pass)
      → IsReady freq_dense dl_dense ds p
      → result (unrolled fl w idf_boost freq_dense dl_dense ds p)
        ≡ add_documents ds (p.scores, p.guess)
  unfolding unrolled
  unrolled_lem freq_dense dl_dense (d₁ ∷ d₂ ∷ d₃ ∷ d₄ ∷ d₅ ∷ d₆ ∷ d₇ ∷ d₈ ∷ ds) p ready =
      step_lem freq_dense dl_dense d₁ (d₂ ∷ d₃ ∷ d₄ ∷ d₅ ∷ d₆ ∷ d₇ ∷ d₈ ∷ []) ds p _ ready
        (unrolled_lem freq_dense dl_dense ds)
  unrolled_lem freq_dense dl_dense [] p ready = remainder_lem freq_dense dl_dense _ p ready
  unrolled_lem freq_dense dl_dense (a ∷ []) p ready = remainder_lem freq_dense dl_dense _ p ready
  unrolled_lem freq_dense dl_dense (a ∷ b ∷ []) p ready =
      remainder_lem freq_dense dl_dense _ p ready
  unrolled_lem freq_dense dl_dense (a ∷ b ∷ c ∷ []) p ready =
      remainder_lem freq_dense dl_dense _ p ready
  unrolled_lem freq_dense dl_dense (a ∷ b ∷ c ∷ d ∷ []) p ready =
      remainder_lem freq_dense dl_dense _ p ready
  unrolled_lem freq_dense dl_dense (a ∷ b ∷ c ∷ d ∷ e ∷ []) p ready =
      remainder_lem freq_dense dl_dense _ p ready
  unrolled_lem freq_dense dl_dense (a ∷ b ∷ c ∷ d ∷ e ∷ f ∷ []) p ready =
      remainder_lem freq_dense dl_dense _ p ready
  unrolled_lem freq_dense dl_dense (a ∷ b ∷ c ∷ d ∷ e ∷ f ∷ g ∷ []) p ready =
      remainder_lem freq_dense dl_dense _ p ready

  accumulate_docs_lem :
      (freq_dense dl_dense : Bool) (ds : List ℕ) (p : Pass)
      → IsReady freq_dense dl_dense ds p
      → result (accumulate_docs fl w idf_boost freq_dense dl_dense ds p)
        ≡ add_documents ds (p.scores, p.guess)
  unfolding accumulate_docs dense_dense dense_sparse sparse_dense sparse_sparse
  accumulate_docs_lem true true ds p ready = unrolled_lem true true ds p ready
  accumulate_docs_lem true false ds p ready = unrolled_lem true false ds p ready
  accumulate_docs_lem false true ds p ready = unrolled_lem false true ds p ready
  accumulate_docs_lem false false ds p ready = unrolled_lem false false ds p ready

with_guess : Option Pass → Option (List Score × ℕ)
with_guess m = m >>= λ q. some (q.scores, q.guess)

scores_of_result : (m : Option Pass) → (m >>= λ p. some p.scores) ≡ (with_guess m >>= λ t. some t.0)
unfolding with_guess
scores_of_result none = refl
scores_of_result (some p) = refl

-- What a table holds for a document, and 0 where it holds nothing.
abbrev pub frequency_in : TokenFrequencies → ℕ → ℕ
frequency_in freqs d = elim (lookup document_of frequency_of freqs d) [
  | none ↦ 0
  | some x ↦ x.frequency
]

abbrev pub length_in : DocumentsLengths → ℕ → ℕ
length_in lengths d = elim (lookup index_of length_of lengths d) [ none ↦ 0 | some x ↦ x.length ]

-- Both tables have an entry for each document.
abbrev pub HasEntries : TokenFrequencies → DocumentsLengths → List ℕ → Type 0
HasEntries freqs lengths ds =
    All
      (λ d.
        (lookup document_of frequency_of freqs d ≢ none)
        × (lookup index_of length_of lengths d ≢ none))
      ds

frequency_found :
    (freqs : TokenFrequencies) (d : ℕ)
    → lookup document_of frequency_of freqs d ≢ none
    → (x : TokenFrequencyEntry) × (lookup document_of frequency_of freqs d ≡ some x)
      × (x.frequency ≡ frequency_in freqs d)
frequency_found freqs d has = elim (Option-cases (lookup document_of frequency_of freqs d)) [
  | inl absent ↦ absurd (has absent)
  | inr (x, found) ↦ (x, found, rw (frequency_in, found) refl)
]

length_found :
    (lengths : DocumentsLengths) (d : ℕ)
    → lookup index_of length_of lengths d ≢ none
    → (x : DocumentLengthEntry) × (lookup index_of length_of lengths d ≡ some x)
      × (x.length ≡ length_in lengths d)
length_found lengths d has = elim (Option-cases (lookup index_of length_of lengths d)) [
  | inl absent ↦ absurd (has absent)
  | inr (x, found) ↦ (x, found, rw (length_in, found) refl)
]

module _ (fl : Floats) (r : Roaring) (law : IsRoaring r) (s : Storage) (bitmap : r.Bitmap)
    (field : Field) (w : Weights) where
  -- For a bitmap library that keeps its laws, frequencies and document lengths in strictly
  -- ascending order of documents that the storage has, both with an entry for every document
  -- of the clause's bitmap that is in the posting list, and a posting list that is not
  -- empty: the loop that is unrolled by eight, in each of the four combinations of dense and
  -- sparse tables, and the loop over the remainder return what adding one document at a time
  -- returns, or panic with it.
  pub accumulate_list-eq :
      (idf_boost : Float32) (freqs : TokenFrequencies) (token_pl : r.Bitmap) (scores : List Score)
      → IsSorted document_of frequency_of freqs
      → IsSorted index_of length_of field.document_lengths
      → All (λ x. document_of x < length s.documents_ids) freqs
      → All (λ x. index_of x < length s.documents_ids) field.document_lengths
      → HasEntries freqs field.document_lengths (resolved r bitmap token_pl)
      → r.is_empty token_pl ≡ false
      → accumulate_list fl r s bitmap field w idf_boost freqs token_pl scores ≡ (
          add_documents fl w idf_boost
            (frequency_in freqs)
            (length_in field.document_lengths)
            (resolved r bitmap token_pl)
            (scores, 0)
          >>= λ t. some t.0)
  unfolding accumulate_list with_guess
  accumulate_list-eq idf_boost freqs token_pl scores h k small_f small_l has full = rw full (
      scores_of_result _
      ∙ ap (λ m. m >>= λ t. some t.0)
          (accumulate_docs_lem fl w idf_boost (frequency_in freqs)
            (length_in field.document_lengths) _ _ (resolved r bitmap token_pl) _
            (
              law.to_array_ascending (r.fast_and (bitmap ∷ token_pl ∷ [])),
              Serves-length document_of frequency_of freqs (length s.documents_ids)
                  (frequency_in freqs) (resolved r bitmap token_pl) h small_f
                  (All-map (resolved r bitmap token_pl) (λ d e. frequency_found freqs d e.0) has),
              Serves-length index_of length_of field.document_lengths (length s.documents_ids)
                  (length_in field.document_lengths) (resolved r bitmap token_pl) k small_l
                  (All-map (resolved r bitmap token_pl)
                    (λ d e. length_found field.document_lengths d e.1) has),
            )))
