-- ===== src/Storage/Merge/Context.antt =====
-- The context that the passes of a merge share, and the walk over two sorted token tables, which
-- the source writes out for the count, for the frequencies and for the tokens.
use textiplex.Prelude.{
  ℕ, ◌+◌, ◌%◌, ◌^◌, Ordering, Option, none, some, List, [], ◌∷◌, length, slice, ◌>>=◌,
}
use textiplex.Bytes.{compare_bytes}
use textiplex.Storage.Headers.{
  Token, TokenFrequencyEntry, TokenFrequencies, DocumentLengthEntry, DocumentsLengths, FieldHeader,
  bytes,
}
use textiplex.Storage.Tokens.{Tokens}
use textiplex.Storage.Segment.{Storage}

-- An index of -1 is `none`.
pub record PendingPostingList : Type 0 where
  pub index_a : Option ℕ
  pub index_b : Option ℕ

pub record FieldsOrder : Type 0 where
  pub a : List ℕ
  pub b : List ℕ
  pub collision : List ℕ

-- `FieldsOrder.Count`
unfoldable pub count_fields : FieldsOrder → ℕ
count_fields o = length o.a + length o.b + length o.collision

-- What the merge writes for one field: its header, the document lengths and the tokens.
pub record FieldSection : Type 0 where
  pub header : FieldHeader
  pub lengths : DocumentsLengths
  pub tokens : Tokens

-- The two storages and the offset are parameters of the passes. `frequencies` and `sections` are
-- what has been written to the file, behind the document ids.
pub record MergeContext : Type 0 where
  pub posting_list_cursor : ℕ
  pub frequencies_cursor : ℕ
  pub posting_list_count : ℕ
  pub pending_posting_lists : List PendingPostingList
  pub fields_order : FieldsOrder
  pub frequencies : TokenFrequencies
  pub sections : List FieldSection

-- `ctx.DocumentOffset + index`, in 32 bits.
unfoldable pub offset_index : ℕ → ℕ → ℕ
offset_index offset index = (offset + index) % 2 ^ 32

unfoldable pub offset_frequency : ℕ → TokenFrequencyEntry → TokenFrequencyEntry
offset_frequency offset e = record e { document_index = offset_index offset e.document_index }

unfoldable pub offset_length : ℕ → DocumentLengthEntry → DocumentLengthEntry
offset_length offset e = record e { index = offset_index offset e.index }

-- `TokenFrequencies[token.FrequenciesIndex : token.FrequenciesIndex+token.FrequencyCount]`
unfoldable pub frequencies_of : Storage → Token → Option TokenFrequencies
frequencies_of s t =
    slice s.token_frequencies t.frequencies_index (t.frequencies_index + t.frequency_count)

-- `UnsafeSliceBytes`, which reads the address of the first element, and so panics without one. The
-- bytes stand as the elements that they are.
unfoldable pub unsafe_slice_bytes {ℓ} : {A : Type ℓ} → List A → Option (List A)
unsafe_slice_bytes [] = none
unsafe_slice_bytes (x ∷ xs) = some (x ∷ xs)

-- The tokens that one round of the walk takes.
pub data Round : Type 0 where
  only_a : Token → Round
  only_b : Token → Round
  both : Token → Token → Round

-- The loop `for aIdx, bIdx := 0, 0; aIdx < aLen || bIdx < bLen;`, as the list of its rounds.
unfoldable pub rounds : Tokens → Tokens → List Round
rounds [] [] = []
rounds [] (b ∷ bs) = only_b b ∷ rounds [] bs
rounds (a ∷ az) [] = only_a a ∷ rounds az []
rounds (a ∷ az) (b ∷ bs) = elim (compare_bytes (bytes a.value) (bytes b.value)) [
  | Ordering.eq ↦ both a b ∷ rounds az bs
  | Ordering.lt ↦ only_a a ∷ rounds az (b ∷ bs)
  | Ordering.gt ↦ only_b b ∷ rounds (a ∷ az) bs
]

-- `CountTokensBetweenCollisionFields`
unfoldable pub count_tokens_between_collision_fields : Tokens → Tokens → ℕ
count_tokens_between_collision_fields [] [] = 0
count_tokens_between_collision_fields [] (b ∷ bs) = count_tokens_between_collision_fields [] bs + 1
count_tokens_between_collision_fields (a ∷ az) [] = count_tokens_between_collision_fields az [] + 1
count_tokens_between_collision_fields (a ∷ az) (b ∷ bs) =
    elim (compare_bytes (bytes a.value) (bytes b.value)) [
      | Ordering.eq ↦ count_tokens_between_collision_fields az bs + 1
      | Ordering.lt ↦ count_tokens_between_collision_fields az (b ∷ bs) + 1
      | Ordering.gt ↦ count_tokens_between_collision_fields (a ∷ az) bs + 1
    ]

-- A loop that may panic.
unfoldable pub for_each {ℓ κ} :
    {S : Type ℓ} {A : Type κ} → (S → A → Option S) → S → List A → Option S
for_each step s [] = some s
for_each step s (x ∷ xs) = step s x >>= λ t. for_each step t xs
