-- ===== src/Storage/Merge/Plan.antt =====
-- What a merge does to the tokens, round by round: the specification of its two passes.
use textiplex.Prelude.{ℕ, ◌+◌, ◌≡◌, Option, none, some, List, [], ◌∷◌, ◌++◌, map, ◌>>=◌}
use textiplex.Storage.Headers.{TokenFrequencies, RawValue}
use textiplex.Storage.Tokens.{Tokens}
use textiplex.Storage.Segment.{Storage, lookup_field, Fields}
use textiplex.Storage.Merge.Context.{
  Round, only_a, only_b, both, PendingPostingList, FieldsOrder, FieldSection, frequencies_of,
  offset_frequency, rounds,
}

-- The number of entries, the posting lists and the value of a round's token.
abbrev pub entries_of : Round → ℕ
entries_of (only_a t) = t.frequency_count
entries_of (only_b t) = t.frequency_count
entries_of (both a b) = a.frequency_count + b.frequency_count

abbrev pub pending_of : Round → PendingPostingList
pending_of (only_a t) = record { index_a = some t.posting_list_index; index_b = none }
pending_of (only_b t) = record { index_a = none; index_b = some t.posting_list_index }
pending_of (both a b) = record {
  index_a = some a.posting_list_index;
  index_b = some b.posting_list_index;
}

abbrev pub value_of : Round → RawValue
value_of (only_a t) = t.value
value_of (only_b t) = t.value
value_of (both a b) = a.value

abbrev pub sum_entries : List Round → ℕ
sum_entries [] = 0
sum_entries (r ∷ rs) = entries_of r + sum_entries rs

-- The tokens of the result, from the cursors on.
abbrev pub place : ℕ → ℕ → List Round → Tokens
place pc fc [] = []
place pc fc (r ∷ rs) =
    record {
      frequency_count = entries_of r;
      posting_list_index = pc;
      frequencies_index = fc;
      value = value_of r;
    }
    ∷ place (pc + 1) (fc + entries_of r) rs

module _ (storage_a storage_b : Storage) (offset : ℕ) where
  -- The entries that the token of a round has in the result: A's, then B's with their indexes moved.
  abbrev pub block : Round → Option TokenFrequencies
  block (only_a t) = frequencies_of storage_a t
  block (only_b t) =
      frequencies_of storage_b t >>= λ freqs. some (map (offset_frequency offset) freqs)
  block (both a b) = frequencies_of storage_a a >>= λ freqs_a.
      frequencies_of storage_b b >>= λ freqs_b.
      some (freqs_a ++ map (offset_frequency offset) freqs_b)

  abbrev pub blocks : List Round → Option TokenFrequencies
  blocks [] = some []
  blocks (r ∷ rs) = block r >>= λ f. blocks rs >>= λ g. some (f ++ g)

-- Every name of a field stands once, as in a Go map.
abbrev pub HasUniqueKeys : Fields → Type 0
HasUniqueKeys [] = Unit
HasUniqueKeys ((h, f) ∷ fs) = (lookup_field h fs ≡ none) × HasUniqueKeys fs

-- The rounds of a list of fields, in its order.
abbrev pub plan_all : (ℕ → Option (List Round)) → List ℕ → Option (List Round)
plan_all p [] = some []
plan_all p (h ∷ hs) = p h >>= λ rs. plan_all p hs >>= λ ss. some (rs ++ ss)

module _ (storage_a storage_b : Storage) where
  -- The rounds of a field of A alone, of B alone, and of both.
  abbrev pub rounds_a : ℕ → Option (List Round)
  rounds_a h = lookup_field h storage_a.fields >>= λ f. some (map only_a f.tokens)

  abbrev pub rounds_b : ℕ → Option (List Round)
  rounds_b h = lookup_field h storage_b.fields >>= λ f. some (map only_b f.tokens)

  abbrev pub rounds_collision : ℕ → Option (List Round)
  rounds_collision h = lookup_field h storage_a.fields >>= λ a.
      lookup_field h storage_b.fields >>= λ b. some (rounds a.tokens b.tokens)

  abbrev pub plan : FieldsOrder → Option (List Round)
  plan o = plan_all rounds_a o.a >>= λ x. plan_all rounds_b o.b >>= λ y.
      plan_all rounds_collision o.collision >>= λ z. some (x ++ (y ++ z))

-- The names of the fields that are, or are not, fields of the other storage.
abbrev pub shared_names : Fields → Fields → List ℕ
shared_names other [] = []
shared_names other ((h, f) ∷ fs) = elim (lookup_field h other) [
  | some _ ↦ h ∷ shared_names other fs
  | none ↦ shared_names other fs
]

abbrev pub own_names : Fields → Fields → List ℕ
own_names other [] = []
own_names other ((h, f) ∷ fs) = elim (lookup_field h other) [
  | some _ ↦ own_names other fs
  | none ↦ h ∷ own_names other fs
]

abbrev pub tokens_of : List FieldSection → Tokens
tokens_of [] = []
tokens_of (s ∷ ss) = s.tokens ++ tokens_of ss

module _ (storage_a storage_b : Storage) where
  -- The order in which the merge writes the fields.
  abbrev pub merge_order : FieldsOrder
  merge_order = record {
    a = own_names storage_b.fields storage_a.fields;
    b = own_names storage_a.fields storage_b.fields;
    collision = shared_names storage_b.fields storage_a.fields;
  }
