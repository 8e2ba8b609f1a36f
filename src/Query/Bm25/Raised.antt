-- ===== src/Query/Bm25/Raised.antt =====
-- The reference adds to each document's score once, and never panics.
use textiplex.Prelude.{
  ℕ, zero, suc, ◌+◌, ◌≤◌, ◌<◌, ◌≡◌, ◌≢◌, refl, sym, ap, ◌∙◌, false, none, some, List, [], ◌∷◌, ◌==◌,
  length, map, length-map, drop, length-drop, All, All-map, IsChain, ◌>>=◌, Bool-cases,
  Option-cases, inl, inr, arith,
}
use textiplex.Search.Partition.{rank, rank-le}
use textiplex.Search.Chain.{find?}
use textiplex.Storage.Headers.{Float32, TokenFrequencies}
use textiplex.Storage.Segment.{Storage, Field}
use textiplex.Roaring.{Roaring, IsRoaring}
use textiplex.Query.Scoring.{Score, index_is, index_below}
use textiplex.Query.Scoring.Updates.{IsAscending, raise_at, add_score-eq-map}
use textiplex.Query.Bm25.{Floats}
use textiplex.Query.Bm25.Accumulate.{Weights, score_of, accumulate_list, resolved}
use textiplex.Query.Bm25.Reads.{IsSorted}
use textiplex.Query.Bm25.Reference.{
  add_documents, frequency_in, length_in, HasEntries, accumulate_list-eq, document_of, frequency_of,
  index_of, length_of,
}

find?-drop-rank :
    (t : List Score) (d e : ℕ)
    → d ≤ e
    → find? (index_is e) (drop (rank (index_below d) t) t) ≡ find? (index_is e) t
find?-drop-rank [] d e l = refl
find?-drop-rank (x ∷ t) d e l = elim (Bool-cases (index_below d x)) [
  | inl m ↦ ground (arith, find?-drop-rank t d e l)
  | inr m ↦ rw m refl
]

drop-nil : (n : ℕ) → drop {A = Score} n [] ≡ []
drop-nil zero = refl
drop-nil (suc n) = refl

drop_add : (m n : ℕ) (s : List Score) → drop (m + n) s ≡ drop n (drop m s)
drop_add zero n s = ap (λ k. drop k s) (zero_add n)
  where
    zero_add : (n : ℕ) → 0 + n ≡ n
    zero_add n = omega arith
drop_add (suc m) n [] = drop-nil (suc m + n) ∙ sym (drop-nil n)
drop_add (suc m) n (x ∷ s) = ap (λ k. drop k (x ∷ s)) (suc_add m n) ∙ drop_add m n s
  where
    suc_add : (m n : ℕ) → suc m + n ≡ suc (m + n)
    suc_add m n = omega arith

module _ (add : Float32 → Float32 → Float32) (d : ℕ) (score : Float32) where
  abbrev raise : Score → Score
  raise = raise_at d add score

  index-raise : (x : Score) → (raise x).index ≡ x.index
  index-raise x = elim (Bool-cases (x.index == d)) [ inl h ↦ rw h refl | inr h ↦ rw h refl ]

  map-IsAscending : (s : List Score) → IsAscending s → IsAscending (map raise s)
  map-IsAscending [] c = tt
  map-IsAscending (x ∷ s) c = (later s c.0, map-IsAscending s c.1)
    where
      later :
          (s : List Score)
          → All (λ y. x.index < y.index) s
          → All (λ y. (raise x).index < y.index) (map raise s)
      later [] h = tt
      later (y ∷ s) h = (omega (arith, h.0, index-raise x, index-raise y), later s h.1)

  find?-map :
      (s : List Score) (e : ℕ) (x : Score)
      → find? (index_is e) s ≡ some x
      → (y : Score) × (find? (index_is e) (map raise s) ≡ some y)
  find?-map [] e x h = absurd (ground arith)
  find?-map (z ∷ s) e x h = elim (Bool-cases (z.index == e)) [
    | inl here ↦ (raise z, rw (index-raise z, here) refl)
    | inr there ↦
        let (y, found) = find?-map s e x (rw there at h) in (y, rw (index-raise z, there) found)
  ]

  drop-map : (n : ℕ) (s : List Score) → drop n (map raise s) ≡ map raise (drop n s)
  drop-map zero s = refl
  drop-map (suc n) [] = refl
  drop-map (suc n) (x ∷ s) = drop-map n s

abbrev IsScored : List Score → ℕ → Type 0
IsScored s d = (x : Score) × (find? (index_is d) s ≡ some x)

module _ (fl : Floats) (w : Weights) (idf_boost : Float32) (tf dl : ℕ → ℕ) where
  -- The scores with each document's own raised by its term's weight.
  unfoldable pub raise_all : List ℕ → List Score → List Score
  raise_all [] s = s
  raise_all (d ∷ ds) s =
      raise_all ds (map (raise_at d fl.add (score_of fl w idf_boost (tf d) (dl d))) s)

  add_documents-eq-raise_all :
      (ds : List ℕ) (s : List Score) (guess : ℕ)
      → IsChain ◌<◌ ds
      → IsAscending s
      → guess ≤ length s
      → All (IsScored (drop guess s)) ds
      → (g : ℕ) × (add_documents fl w idf_boost tf dl ds (s, guess) ≡ some (raise_all ds s, g))
  unfolding add_documents raise_all
  add_documents-eq-raise_all [] s guess c a h scored = (guess, refl)
  add_documents-eq-raise_all (d ∷ ds) s guess c a h ((x, found), scored) =
      let score = score_of fl w idf_boost (tf d) (dl d) in
      let t = drop guess s in
      let next = guess + rank (index_below d) t in
      let (g, rest) =
        add_documents-eq-raise_all ds (map (raise_at d fl.add score) s) next c.1
          (map-IsAscending fl.add d score s a)
          (omega (
            arith,
            length-map (raise_at d fl.add score) s,
            rank-le (index_below d) t,
            length-drop guess s,
          ))
          (All-both ds c.0 scored) in
      (g, rw (add_score-eq-map d fl.add score guess s x a h found) rest)
    where
      All-both :
          (es : List ℕ)
          → All (λ e. d < e) es
          → All (IsScored (drop guess s)) es
          → All
              (IsScored (
                drop
                  (guess + rank (index_below d) (drop guess s))
                  (map (raise_at d fl.add (score_of fl w idf_boost (tf d) (dl d))) s)))
              es
      All-both [] l scored = tt
      All-both (e ∷ es) l ((y, there), scored) = (
        rw
            (drop-map fl.add d (score_of fl w idf_boost (tf d) (dl d))
              (guess + rank (index_below d) (drop guess s)) s)
            (find?-map fl.add d (score_of fl w idf_boost (tf d) (dl d))
              (drop (guess + rank (index_below d) (drop guess s)) s) e y
              (ap (find? (index_is e)) (drop_add guess (rank (index_below d) (drop guess s)) s)
                ∙ find?-drop-rank (drop guess s) d e (omega (arith, l.0))
                ∙ there)),
        All-both es l.1 scored,
      )

-- Every document has a score.
abbrev pub HasScores : List Score → List ℕ → Type 0
HasScores scores ds = All (λ d. find? (index_is d) scores ≢ none) ds

HasScores-IsScored :
    (scores : List Score) (ds : List ℕ) → HasScores scores ds → All (IsScored scores) ds
HasScores-IsScored scores ds has =
    All-map ds
      (λ d h. elim (Option-cases (find? (index_is d) scores)) [
        | inl absent ↦ absurd (h absent)
        | inr found ↦ found
      ])
      has

-- For a bitmap library that keeps its laws, frequencies and document lengths in strictly
-- ascending order of documents that the storage has, both with an entry for every document of
-- the clause's bitmap that is in the posting list, ascending scores with one for each of those
-- documents, and a posting list that is not empty: the loops over the documents do not panic,
-- and raise the score of each of those documents by the score of its own frequency and length,
-- in turn, and no other.
pub accumulate_list-eq-raise_all :
    (fl : Floats) (r : Roaring) (law : IsRoaring r) (s : Storage) (bitmap : r.Bitmap)
    (field : Field) (w : Weights) (idf_boost : Float32) (freqs : TokenFrequencies)
    (token_pl : r.Bitmap) (scores : List Score)
    → IsSorted document_of frequency_of freqs
    → IsSorted index_of length_of field.document_lengths
    → All (λ x. document_of x < length s.documents_ids) freqs
    → All (λ x. index_of x < length s.documents_ids) field.document_lengths
    → HasEntries freqs field.document_lengths (resolved r bitmap token_pl)
    → IsAscending scores
    → HasScores scores (resolved r bitmap token_pl)
    → r.is_empty token_pl ≡ false
    → accumulate_list fl r s bitmap field w idf_boost freqs token_pl scores
      ≡ some (
          raise_all fl w idf_boost
            (frequency_in freqs)
            (length_in field.document_lengths)
            (resolved r bitmap token_pl)
            scores)
accumulate_list-eq-raise_all fl r law s bitmap field w idf_boost freqs token_pl scores h k small_f
      small_l has asc scored full =
    let (g, run) =
      add_documents-eq-raise_all fl w idf_boost (frequency_in freqs)
        (length_in field.document_lengths) (resolved r bitmap token_pl) scores 0
        (law.to_array_ascending (r.fast_and (bitmap ∷ token_pl ∷ []))) asc (omega arith)
        (HasScores-IsScored scores (resolved r bitmap token_pl) scored) in
    accumulate_list-eq fl r law s bitmap field w idf_boost freqs token_pl scores h k small_f small_l
      has full
    ∙ ap (λ m. m >>= λ t. some t.0) run
