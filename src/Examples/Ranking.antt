-- ===== src/Examples/Ranking.antt =====
-- The scores that a token adds to two of three documents, with whole numbers for floats.
use textiplex.Prelude.{
  ℕ, ◌+◌, ◌-◌, ◌*◌, ◌≡◌, ◌≢◌, refl, true, false, some, none, List, [], ◌∷◌, ◌==◌, ◌>>=◌, arith,
}
use textiplex.Prelude.Int.{ℤ, pos, negsuc}
use textiplex.Storage.Headers.{TokenFrequencies, RawValue}
use textiplex.Storage.Segment.{Storage, Field}
use textiplex.Query.Scoring.{Score}
use textiplex.Query.Bm25.{Floats}
use textiplex.Query.Bm25.Accumulate.{Weights, accumulate_list, resolved}
use textiplex.Query.Bm25.Reference.{add_documents, frequency_in, length_in, accumulate_list-eq}
use textiplex.Query.Bm25.Raised.{raise_all, accumulate_list-eq-raise_all}
use textiplex.Storage.File.Load.{zero_storage}
use textiplex.Examples.Bits.{Bits, bits, bits-IsRoaring}

abbrev whole_of : ℤ → ℕ
whole_of (pos n) = n
whole_of (negsuc n) = 0

abbrev whole : Floats
whole = record {
  add = λ a b. a + b;
  sub = λ a b. a - b;
  mul = λ a b. a * b;
  div = λ a b. a + b;
  equal = λ a b. a == b;
  of_uint = λ n. n;
  of_int = whole_of;
}

abbrev id : RawValue
id = record { size = 0; store = [] }

abbrev storage : Storage
storage = record zero_storage {
  documents_ids = record { value = id } ∷ record { value = id } ∷ record { value = id } ∷ [];
}

abbrev field : Field
field = record {
  avg_document_length = 5;
  total_documents_length = 15;
  tokens = [];
  total_token_frequencies_count = 2;
  document_lengths =
      record { index = 0; length = 4 }
      ∷ record { index = 1; length = 5 }
      ∷ record { index = 2; length = 6 }
      ∷ [];
}

abbrev freqs : TokenFrequencies
freqs =
    record { document_index = 0; frequency = 2 } ∷ record { document_index = 2; frequency = 3 } ∷ []

abbrev found_in : Bits
found_in = true ∷ false ∷ true ∷ []

abbrev scores : List Score
scores = record { index = 0; value = 0 } ∷ record { index = 2; value = 1 } ∷ []

abbrev weights_of_five : Weights
weights_of_five = record { boost = 1; sat_plus_1 = 2; sat_x_one_minus_lp = 1; sat_x_lp_div_avg = 3 }

some-ne-none : {A : Type 0} (x : A) → ◌≢◌ (some x) none
some-ne-none x h = cc

accumulate_list_example :
    accumulate_list whole bits storage found_in field weights_of_five 2 freqs found_in scores ≡ (
      add_documents whole weights_of_five 2
        (frequency_in freqs)
        (length_in field.document_lengths)
        (resolved bits found_in found_in)
        (scores, 0)
      >>= λ t. some t.0)
accumulate_list_example =
    accumulate_list-eq whole bits bits-IsRoaring storage found_in field weights_of_five 2 freqs
      found_in scores ((omega arith, tt), (tt, tt))
      ((omega arith, (omega arith, tt)), ((omega arith, tt), (tt, tt)))
      (omega arith, (omega arith, tt)) (omega arith, (omega arith, (omega arith, tt)))
      ((some-ne-none _, some-ne-none _), ((some-ne-none _, some-ne-none _), tt)) refl

raise_all_example :
    accumulate_list whole bits storage found_in field weights_of_five 2 freqs found_in scores
    ≡ some (
        raise_all whole weights_of_five 2
          (frequency_in freqs)
          (length_in field.document_lengths)
          (resolved bits found_in found_in)
          scores)
raise_all_example =
    accumulate_list-eq-raise_all whole bits bits-IsRoaring storage found_in field weights_of_five 2
      freqs found_in scores ((omega arith, tt), (tt, tt))
      ((omega arith, (omega arith, tt)), ((omega arith, tt), (tt, tt)))
      (omega arith, (omega arith, tt)) (omega arith, (omega arith, (omega arith, tt)))
      ((some-ne-none _, some-ne-none _), ((some-ne-none _, some-ne-none _), tt))
      ((omega arith, tt), (tt, tt)) (some-ne-none _, (some-ne-none _, tt)) refl
