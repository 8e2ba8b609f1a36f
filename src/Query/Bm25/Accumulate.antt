-- ===== src/Query/Bm25/Accumulate.antt =====
-- `Searcher.ScalarAccumulateBM25` of query/bm5_acc_scalar.go: the scores that the tokens of a clause
-- add to the matching documents, eight documents at a time and then one by one.
use textiplex.Prelude.{
  ℕ, ◌+◌, Bool, true, false, ◌||◌, ◌==◌, Option, some, List, [], ◌∷◌, length, slice, if◌then◌else◌,
  ◌>>=◌,
}
use textiplex.Roaring.{Roaring}
use textiplex.Storage.Headers.{Float32, Token, TokenFrequencies, DocumentsLengths}
use textiplex.Storage.Segment.{Storage, Field, get_posting_list, unsafe_bitmap}
use textiplex.Query.Clause.{ClauseState}
use textiplex.Query.Scoring.{Score, add_score}
use textiplex.Query.Bm25.{Floats, one, inverse_document_frequency}
use textiplex.Query.Bm25.Tables.{read_table}

-- What the loops over the documents carry: the rest of both tables, the guess and the scores.
pub record Pass : Type 0 where
  pub freqs : TokenFrequencies
  pub doc_lengths : DocumentsLengths
  pub guess : ℕ
  pub scores : List Score

-- What the call computes before it looks at a document.
pub record Weights : Type 0 where
  pub boost : Float32
  pub sat_plus_1 : Float32
  pub sat_x_one_minus_lp : Float32
  pub sat_x_lp_div_avg : Float32

abbrev pub read_frequencies : Bool → TokenFrequencies → List ℕ → Option (List ℕ × TokenFrequencies)
read_frequencies = read_table (λ e. e.document_index) (λ e. e.frequency)

abbrev pub read_lengths : Bool → DocumentsLengths → List ℕ → Option (List ℕ × DocumentsLengths)
read_lengths = read_table (λ e. e.index) (λ e. e.length)

-- The matching documents of a posting list.
abbrev pub resolved : (r : Roaring) → r.Bitmap → r.Bitmap → List ℕ
resolved r bitmap token_pl = r.to_array (r.fast_and (bitmap ∷ token_pl ∷ []))

module _ (fl : Floats) where
  unfoldable pub weights : Float32 → Float32 → Float32 → Float32 → Weights
  weights boost average saturation length_penalty = record {
    boost = boost;
    sat_plus_1 = fl.add saturation one;
    sat_x_one_minus_lp = fl.mul saturation (fl.sub one length_penalty);
    sat_x_lp_div_avg = fl.mul saturation (fl.div length_penalty average);
  }

  -- The factor of all scores of a token.
  unfoldable pub idf_boost_of : Weights → Float32 → Float32
  idf_boost_of w idf =
      if fl.equal w.boost one
      then fl.mul idf w.sat_plus_1
      else fl.mul (fl.mul idf w.boost) w.sat_plus_1

  module _ (w : Weights) (idf_boost : Float32) where
    -- The score of one document, of its frequency and its length.
    unfoldable pub score_of : ℕ → ℕ → Float32
    score_of frequency doc_length =
        let tf = fl.of_uint frequency in
        let denominator1 = fl.add tf w.sat_x_one_minus_lp in
        let denominator2 = fl.mul (fl.of_uint doc_length) w.sat_x_lp_div_avg in
        let reciprocal = fl.div one (fl.add denominator1 denominator2) in
        fl.mul idf_boost (fl.mul tf reciprocal)

    -- `guess = ctx.Scoring.Add(guess, docIdx, score)`, once for each document.
    unfoldable pub add_all : List ℕ → List ℕ → List ℕ → List Score × ℕ → Option (List Score × ℕ)
    unfolding score_of add_score
    add_all (d ∷ ds) (tf ∷ tfs) (dl ∷ dls) s =
        add_score fl.add s.1 d (score_of tf dl) s.0 >>= λ t. add_all ds tfs dls t
    add_all ds tfs dls s = some s

    -- Some documents of the list: all reads come before the additions.
    unfoldable pub group_step : Bool → Bool → List ℕ → Pass → Option Pass
    group_step freq_dense dl_dense ds p = read_frequencies freq_dense p.freqs ds >>= λ f.
        read_lengths dl_dense p.doc_lengths ds >>= λ l.
        add_all ds f.0 l.0 (p.scores, p.guess) >>= λ s.
        some (record { freqs = f.1; doc_lengths = l.1; guess = s.1; scores = s.0 })

    -- The documents behind the last eight.
    unfoldable pub remainder : Bool → Bool → List ℕ → Pass → Option Pass
    remainder freq_dense dl_dense [] p = some p
    remainder freq_dense dl_dense (d ∷ ds) p =
        group_step freq_dense dl_dense (d ∷ []) p >>= λ q. remainder freq_dense dl_dense ds q

    -- The loop that is unrolled by `UnrollingFactor`, and the loop over the remainder.
    unfoldable pub unrolled : Bool → Bool → List ℕ → Pass → Option Pass
    unrolled freq_dense dl_dense (d₁ ∷ d₂ ∷ d₃ ∷ d₄ ∷ d₅ ∷ d₆ ∷ d₇ ∷ d₈ ∷ ds) p =
        group_step freq_dense dl_dense (d₁ ∷ d₂ ∷ d₃ ∷ d₄ ∷ d₅ ∷ d₆ ∷ d₇ ∷ d₈ ∷ []) p >>= λ q.
        unrolled freq_dense dl_dense ds q
    unrolled freq_dense dl_dense ds p = remainder freq_dense dl_dense ds p

    -- The four cases of the `switch`.
    unfoldable pub dense_dense : List ℕ → Pass → Option Pass
    unfolding unrolled
    dense_dense = unrolled true true

    unfoldable pub dense_sparse : List ℕ → Pass → Option Pass
    unfolding unrolled
    dense_sparse = unrolled true false

    unfoldable pub sparse_dense : List ℕ → Pass → Option Pass
    unfolding unrolled
    sparse_dense = unrolled false true

    unfoldable pub sparse_sparse : List ℕ → Pass → Option Pass
    unfolding unrolled
    sparse_sparse = unrolled false false

    unfoldable pub accumulate_docs : Bool → Bool → List ℕ → Pass → Option Pass
    accumulate_docs true true = dense_dense
    accumulate_docs true false = dense_sparse
    accumulate_docs false true = sparse_dense
    accumulate_docs false false = sparse_sparse

  module _ (r : Roaring) (s : Storage) (bitmap : r.Bitmap) (field : Field) (w : Weights) where
    abbrev documents_count : ℕ
    documents_count = length s.documents_ids

    -- The loop's body for one token, behind its frequencies and its factor.
    unfoldable pub accumulate_list :
        Float32 → TokenFrequencies → r.Bitmap → List Score → Option (List Score)
    accumulate_list idf_boost freqs token_pl scores =
        if r.is_empty token_pl
        then some scores
        else (accumulate_docs w idf_boost (length freqs == documents_count)
              (length field.document_lengths == documents_count) (resolved r bitmap token_pl)
              (record {
                freqs = freqs;
                doc_lengths = field.document_lengths;
                guess = 0;
                scores = scores;
              })
            >>= λ p. some p.scores)

    unfoldable pub accumulate_token : List Score → Token → Option (List Score)
    accumulate_token scores token =
        slice s.token_frequencies token.frequencies_index
          (token.frequencies_index + token.frequency_count)
        >>= λ freqs.
            let idf_boost = idf_boost_of w (
              inverse_document_frequency fl (length field.document_lengths)
                token.frequency_count) in
            if fl.equal idf_boost 0 || fl.equal w.sat_plus_1 0
            then some scores
            else (get_posting_list s.posting_lists token.posting_list_index >>= λ l.
                accumulate_list idf_boost freqs (unsafe_bitmap r l) scores)

    unfoldable pub accumulate_tokens : List Token → List Score → Option (List Score)
    accumulate_tokens [] scores = some scores
    accumulate_tokens (token ∷ tokens) scores =
        accumulate_token scores token >>= λ t. accumulate_tokens tokens t

  -- `ScalarAccumulateBM25`. A nil field is a panic.
  unfoldable pub scalar_accumulate_bm25 :
      (r : Roaring)
      → Storage
      → r.Bitmap
      → ClauseState
      → Float32
      → Float32
      → List Score
      → Option (List Score)
  scalar_accumulate_bm25 r s bitmap state saturation length_penalty scores =
      state.field >>= λ field.
      accumulate_tokens r s bitmap field
        (weights state.boost field.avg_document_length saturation length_penalty) state.tokens
        scores
