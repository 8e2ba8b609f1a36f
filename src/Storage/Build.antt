-- ===== src/Storage/Build.antt =====
-- `Storage.BuildFrom` of storage/storage.go, and the documents of storage/document.go that it takes.
pub mod Distinct
pub mod Laws
pub mod Whole
pub mod Filled
pub mod Merged
use textiplex.Prelude.{
  ℕ, ◌+◌, ◌%◌, ◌^◌, Bool, true, Option, none, some, List, [], ◌∷◌, ◌++◌, length, map, ltb, ◌==◌,
  if◌then◌else◌,
}
use textiplex.Bytes.{Bytes}
use textiplex.Roaring.{Roaring}
use textiplex.Storage.Headers.{
  Float32, Token, TokenFrequencyEntry, TokenFrequencies, DocumentLengthEntry, DocumentsLengths,
  DocumentId, raw_value_from,
}
use textiplex.Storage.File.Save.{cold_initialize}
use textiplex.Storage.File.Load.{zero_storage}
use textiplex.Storage.Segment.{Storage, Field, PostingList, posting_lists_len}

pub record TokenDefinition : Type 0 where
  pub value : Bytes
  pub frequency : ℕ

-- A nil pointer among the tokens is `none`. The pointers to fields are not nil.
pub record FieldDefinition : Type 0 where
  pub hash : ℕ
  pub tokens : List (Option TokenDefinition)
  pub length : ℕ

pub record Document : Type 0 where
  pub id : DocumentId
  pub fields : List FieldDefinition

pub record PostingData : Type 0 where
  pub value : Bytes
  pub freqs : TokenFrequencies

-- The trees of github.com/tidwall/btree over `bytes.Compare`, which the program calls and does not
-- hold. `items` is what the iterator walks.
pub record BTree : Type 1 where
  pub Tree : Type 0
  pub empty : Tree
  pub get : Tree → Bytes → Option PostingData
  pub set : Tree → PostingData → Tree
  pub items : Tree → List PostingData

module _ (r : Roaring) where
  -- The bitmap that is cleared and filled again for each token.
  unfoldable pub posting_bitmap : TokenFrequencies → r.Bitmap
  posting_bitmap freqs = r.add_many r.empty (map (λ e. e.document_index) freqs)

  -- The round of one token: its posting list, its frequencies, and the token itself.
  unfoldable pub build_token : Storage × List Token → PostingData → Storage × List Token
  build_token (s, tokens) pd =
      let bitmap = posting_bitmap pd.freqs in
      (
        record s {
          posting_lists = record s.posting_lists {
            entries = s.posting_lists.entries ++ record { bytes = r.serialize bitmap } ∷ [];
          };
          token_frequencies = s.token_frequencies ++ pd.freqs;
        },
        tokens
            ++ record {
              frequency_count = r.cardinality bitmap;
              posting_list_index = posting_lists_len s.posting_lists;
              frequencies_index = length s.token_frequencies;
              value = raw_value_from pd.value;
            }
              ∷ [],
      )

  unfoldable pub build_tokens : List PostingData → Storage × List Token → Storage × List Token
  build_tokens [] st = st
  build_tokens (pd ∷ pds) st = build_tokens pds (build_token st pd)

module _ (bt : BTree) where
  pub record FieldAccumulator : Type 0 where
    pub total_length : ℕ
    pub documents_count : ℕ
    pub documents_lengths : DocumentsLengths
    pub tokens : bt.Tree
    pub total_token_frequencies_count : ℕ

  abbrev pub Accumulators : Type 0
  Accumulators = List (ℕ × FieldAccumulator)

  abbrev pub new_accumulator : FieldAccumulator
  new_accumulator = record {
    total_length = 0;
    documents_count = 0;
    documents_lengths = [];
    tokens = bt.empty;
    total_token_frequencies_count = 0;
  }

  -- The entry of a document behind those of a token, which is new when the tree does not have it.
  unfoldable pub add_frequency : bt.Tree → ℕ → TokenDefinition → bt.Tree
  add_frequency tree doc_idx t =
      let entry : TokenFrequencyEntry = record {
        document_index = doc_idx;
        frequency = t.frequency;
      } in
      elim (bt.get tree t.value) [
        | none ↦ bt.set tree (record { value = t.value; freqs = entry ∷ [] })
        | some pd ↦ bt.set tree (record pd { freqs = pd.freqs ++ entry ∷ [] })
      ]

  -- The loop over `fieldDef.Tokens`.
  unfoldable pub add_tokens :
      ℕ → List (Option TokenDefinition) → FieldAccumulator → FieldAccumulator
  add_tokens doc_idx [] acc = acc
  add_tokens doc_idx (none ∷ ts) acc = add_tokens doc_idx ts acc
  add_tokens doc_idx (some t ∷ ts) acc = add_tokens doc_idx ts (record acc {
    tokens = add_frequency acc.tokens doc_idx t;
    total_token_frequencies_count = acc.total_token_frequencies_count + 1;
  })

  unfoldable pub add_length : ℕ → ℕ → FieldAccumulator → FieldAccumulator
  add_length doc_idx len acc =
      if ltb 0 len
      then record acc {
        documents_lengths = acc.documents_lengths ++ record { index = doc_idx; length = len } ∷ [];
        total_length = acc.total_length + len;
        documents_count = acc.documents_count + 1;
      }
      else acc

  unfoldable pub add_field : ℕ → FieldDefinition → Accumulators → Accumulators
  add_field doc_idx f [] =
      (f.hash, add_tokens doc_idx f.tokens (add_length doc_idx f.length new_accumulator)) ∷ []
  add_field doc_idx f ((h, acc) ∷ accs) =
      if h == f.hash
      then (h, add_tokens doc_idx f.tokens (add_length doc_idx f.length acc)) ∷ accs
      else (h, acc) ∷ add_field doc_idx f accs

  unfoldable pub add_fields : ℕ → List FieldDefinition → Accumulators → Accumulators
  add_fields doc_idx [] accs = accs
  add_fields doc_idx (f ∷ fs) accs = add_fields doc_idx fs (add_field doc_idx f accs)

  -- The loop over the documents, from the index of the first. An index has 32 bits.
  unfoldable pub accumulate : ℕ → List Document → Accumulators → Accumulators
  accumulate doc_index [] accs = accs
  accumulate doc_index (doc ∷ docs) accs =
      accumulate (doc_index + 1) docs (add_fields (doc_index % 2 ^ 32) doc.fields accs)

  module _ (r : Roaring) (average : ℕ → ℕ → Float32) where
    -- The round of one field.
    unfoldable pub build_field : Storage → ℕ × FieldAccumulator → Storage
    build_field s (h, acc) =
        let st = build_tokens r (bt.items acc.tokens) (s, []) in
        record (st.0) {
          fields =
              s.fields
              ++ (
                h,
                record {
                  avg_document_length =
                      if ltb 0 acc.documents_count
                      then average acc.total_length acc.documents_count
                      else 0;
                  total_documents_length = acc.total_length;
                  tokens = st.1;
                  total_token_frequencies_count = acc.total_token_frequencies_count;
                  document_lengths = acc.documents_lengths;
                },
              )
                ∷ [];
        }

    unfoldable pub build_fields : Accumulators → Storage → Storage
    build_fields [] s = s
    build_fields (acc ∷ accs) s = build_fields accs (build_field s acc)

    -- The storage `s` after the calls before the loops. An initialized one is reset, another keeps
    -- what it has, the headers and the reference of its posting lists too.
    unfoldable pub started : Storage → List Document → Storage
    unfolding cold_initialize
    started s docs =
        let s' = cold_initialize (if s.initialized then zero_storage else s) in
        record s' {
          size = 0;
          documents_ids = map (λ doc. doc.id) docs;
          posting_lists = record s'.posting_lists { entries = [] };
          token_frequencies = [];
        }

    -- `BuildFrom`, without the estimate that it keeps in `Size`. `visit` is the order in which the
    -- `range` over the accumulators visits them.
    unfoldable pub build_from : (Accumulators → Accumulators) → Storage → List Document → Storage
    unfolding started
    build_from visit s docs = build_fields (visit (accumulate 0 docs [])) (started s docs)
