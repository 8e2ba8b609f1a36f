-- ===== src/Storage/Merge/Whole.antt =====
-- Segments whose tokens can all be read, and the loops of the passes on them.
use textiplex.Prelude.{
  ℕ, ◌+◌, ◌<◌, ◌≡◌, refl, subst, Option, none, some, List, [], ◌∷◌, ◌++◌, ◌==◌, All, All-map,
  Ordering-cases, Bool-cases, inl, inr, length, length-slice, ◌>>=◌, arith,
}
use mathlib.Core.Option.{some-injective}
use textiplex.Bytes.{compare_bytes}
use textiplex.Storage.Headers.{Token, TokenFrequencies, bytes}
use textiplex.Storage.Tokens.{Tokens}
use textiplex.Storage.Segment.{Field, Fields, Storage, PostingList, lookup_field, get_posting_list}
use textiplex.Storage.Merge.Context.{
  Round, only_a, only_b, both, rounds, frequencies_of, for_each, unsafe_slice_bytes,
}
use textiplex.Storage.Merge.Emit.{fold}

-- The entries and the posting list of the token are not out of range.
abbrev pub IsWholeToken : Storage → Token → Type 0
IsWholeToken s t =
    ((f : TokenFrequencies) × (frequencies_of s t ≡ some f))
    × ((l : PostingList) × (get_posting_list s.posting_lists t.posting_list_index ≡ some l))

-- A token of A, whose entries are written as one slice, has at least one.
abbrev pub IsFilledToken : Storage → Token → Type 0
IsFilledToken s t = IsWholeToken s t × (0 < t.frequency_count)

abbrev pub IsFilled : Storage → Type 0
IsFilled s = All (λ p. All (IsFilledToken s) p.1.tokens) s.fields

abbrev pub IsWhole : Storage → Type 0
IsWhole s = All (λ p. All (IsWholeToken s) p.1.tokens) s.fields

abbrev pub IsFound : Storage → ℕ → Type 0
IsFound s h = (f : Field) × (lookup_field h s.fields ≡ some f)

pub All-lookup_field :
    (Q : Field → Type 0) (fs : Fields) (h : ℕ) (f : Field)
    → All (λ p. Q p.1) fs
    → lookup_field h fs ≡ some f
    → Q f
unfolding lookup_field
All-lookup_field Q [] h f all e = ground arith
All-lookup_field Q ((k, g) ∷ fs) h f all e = elim (Bool-cases (k == h)) [
  | inl same ↦ subst Q (some-injective _ _ (rw same at e)) all.0
  | inr other ↦ All-lookup_field Q fs h f all.1 (rw other at e)
]

pub fields-IsFound : (fs : Fields) → All (λ p. (g : Field) × (lookup_field p.0 fs ≡ some g)) fs
unfolding lookup_field
fields-IsFound [] = tt
fields-IsFound ((k, f) ∷ fs) =
    ((f, ground arith), All-map fs (λ p (g, e). later p.0 g e) (fields-IsFound fs))
  where
    later :
        (h : ℕ) (g : Field)
        → lookup_field h fs ≡ some g
        → (g : Field) × (lookup_field h ((k, f) ∷ fs) ≡ some g)
    later h g e = elim (Bool-cases (k == h)) [
      | inl same ↦ (f, rw same refl)
      | inr other ↦ (g, rw other e)
    ]

pub All-snoc :
    {A : Type 0} (P : A → Type 0) (xs : List A) (x : A) → All P xs → P x → All P (xs ++ x ∷ [])
All-snoc P [] x all h = (h, tt)
All-snoc P (y ∷ xs) x all h = (all.0, All-snoc P xs x all.1 h)

pub All-zip :
    {A : Type 0} (P Q : A → Type 0) (xs : List A) → All P xs → All Q xs → All (λ x. P x × Q x) xs
All-zip P Q [] p q = tt
All-zip P Q (x ∷ xs) p q = ((p.0, q.0), All-zip P Q xs p.1 q.1)

-- What was read and then written as one slice.
pub written-eq-some :
    {A B : Type 0} (o : Option (List A)) (k : List A → Option B) (d : B)
    → (o >>= λ f. unsafe_slice_bytes f >>= k) ≡ some d
    → (f : List A) × (o ≡ some f) × (k f ≡ some d)
unfolding unsafe_slice_bytes
written-eq-some none k d h = ground arith
written-eq-some (some []) k d h = ground arith
written-eq-some (some (x ∷ xs)) k d h = (x ∷ xs, refl, h)

pub unsafe_slice_bytes-nonempty :
    {A : Type 0} (xs : List A) → 0 < length xs → unsafe_slice_bytes xs ≡ some xs
unfolding unsafe_slice_bytes
unsafe_slice_bytes-nonempty [] h = absurd (omega (arith, h))
unsafe_slice_bytes-nonempty (x ∷ xs) h = refl

pub length-frequencies_of :
    (s : Storage) (t : Token) (f : TokenFrequencies)
    → frequencies_of s t ≡ some f
    → length f ≡ t.frequency_count
unfolding frequencies_of
length-frequencies_of s t f e = omega (
  arith,
  length-slice s.token_frequencies t.frequencies_index (t.frequencies_index + t.frequency_count) f
      e,
)

-- A loop whose every round returns and keeps an invariant returns and keeps it.
pub for_each-total :
    {S A : Type 0} (I : S → Type 0) (P : A → Type 0) (step : S → A → Option S)
    → ((s : S) (x : A) → I s → P x → (t : S) × (step s x ≡ some t) × I t)
    → (s : S) (xs : List A) → I s
    → All P xs
    → (t : S) × (for_each step s xs ≡ some t) × I t
unfolding for_each
for_each-total I P step one s [] i all = (s, refl, i)
for_each-total I P step one s (x ∷ xs) i all =
    let (t, e, j) = one s x i all.0 in
    let (u, rest, k) = for_each-total I P step one t xs j all.1 in (u, rw e rest, k)

pub fold-keeps :
    {S A : Type 0} (I : S → Type 0) (P : A → Type 0) (step : S → A → S)
    → ((s : S) (x : A) → I s → P x → I (step s x))
    → (s : S) (xs : List A) → I s
    → All P xs
    → I (fold step s xs)
unfolding fold
fold-keeps I P step one s [] i all = i
fold-keeps I P step one s (x ∷ xs) i all =
    fold-keeps I P step one (step s x) xs (one s x i all.0) all.1

module _ (storage_a storage_b : Storage) where
  abbrev pub IsWholeRound : Round → Type 0
  IsWholeRound (only_a t) = IsFilledToken storage_a t
  IsWholeRound (only_b t) = IsWholeToken storage_b t
  IsWholeRound (both t u) = IsFilledToken storage_a t × IsWholeToken storage_b u

  pub rounds-IsWholeRound :
      (a b : Tokens)
      → All (IsFilledToken storage_a) a
      → All (IsWholeToken storage_b) b
      → All IsWholeRound (rounds a b)
  unfolding rounds
  rounds-IsWholeRound [] [] p q = tt
  rounds-IsWholeRound [] (y ∷ b) p q = (q.0, rounds-IsWholeRound [] b tt q.1)
  rounds-IsWholeRound (x ∷ a) [] p q = (p.0, rounds-IsWholeRound a [] p.1 tt)
  rounds-IsWholeRound (x ∷ a) (y ∷ b) p q =
      elim (Ordering-cases (compare_bytes (bytes x.value) (bytes y.value))) [
        | inl e ↦ rw (e, rounds) (p.0, rounds-IsWholeRound a (y ∷ b) p.1 q)
        | inr (inl e) ↦ rw (e, rounds) ((p.0, q.0), rounds-IsWholeRound a b p.1 q.1)
        | inr (inr e) ↦ rw (e, rounds) (q.0, rounds-IsWholeRound (x ∷ a) b p q.1)
      ]
