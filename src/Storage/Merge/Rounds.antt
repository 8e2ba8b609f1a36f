-- ===== src/Storage/Merge/Rounds.antt =====
-- The walk over two sorted token tables takes the tokens in order, and a token of each storage
-- with the same value in one round.
use textiplex.Prelude.{
  Ordering-cases, inl, inr, Bool, true, ap, ◌≡◌, refl, Option, none, some, [], ◌∷◌, length, arith,
  All, All-map, IsChain, subst, sym,
}
use textiplex.Bytes.{
  Bytes, compare_bytes, is_eq, ◌≺◌, ≺_trans, compare_bytes-eq, compare_bytes-gt, compare_bytes-lt,
}
use textiplex.Search.Chain.{find?}
use textiplex.Storage.Headers.{Token, bytes}
use textiplex.Storage.Tokens.{Tokens, IsSorted, value_is}
use textiplex.Storage.Merge.Context.{
  Round, only_a, only_b, both, rounds, count_tokens_between_collision_fields,
}
use textiplex.Storage.Merge.Plan.{value_of}

-- The token count that `Merge` writes into the header of a field of both storages is the
-- number of rounds of its walk, each of which writes one token.
pub count_tokens_between_collision_fields-eq-length :
    (a b : Tokens) → count_tokens_between_collision_fields a b ≡ length (rounds a b)
unfolding count_tokens_between_collision_fields rounds
count_tokens_between_collision_fields-eq-length [] [] = refl
count_tokens_between_collision_fields-eq-length [] (y ∷ b) =
    omega (arith, count_tokens_between_collision_fields-eq-length [] b)
count_tokens_between_collision_fields-eq-length (x ∷ a) [] =
    omega (arith, count_tokens_between_collision_fields-eq-length a [])
count_tokens_between_collision_fields-eq-length (x ∷ a) (y ∷ b) = ground (
  arith,
  count_tokens_between_collision_fields-eq-length a b,
  count_tokens_between_collision_fields-eq-length a (y ∷ b),
  count_tokens_between_collision_fields-eq-length (x ∷ a) b,
)

abbrev Above : Bytes → Tokens → Type 0
Above v = All (λ t. v ≺ bytes t.value)

abbrev RoundAbove : Bytes → Round → Type 0
RoundAbove v r = v ≺ bytes (value_of r)

rounds-Above : (v : Bytes) (a b : Tokens) → Above v a → Above v b → All (RoundAbove v) (rounds a b)
unfolding rounds
rounds-Above v [] [] p q = tt
rounds-Above v [] (y ∷ b) p q = (q.0, rounds-Above v [] b p q.1)
rounds-Above v (x ∷ a) [] p q = (p.0, rounds-Above v a [] p.1 q)
rounds-Above v (x ∷ a) (y ∷ b) p q =
    elim (Ordering-cases (compare_bytes (bytes x.value) (bytes y.value))) [
      | inl e ↦ rw (e, rounds) (p.0, rounds-Above v a (y ∷ b) p.1 q)
      | inr (inl e) ↦ rw (e, rounds) (p.0, rounds-Above v a b p.1 q.1)
      | inr (inr e) ↦ rw (e, rounds) (q.0, rounds-Above v (x ∷ a) b p q.1)
    ]

all_later : (t : Token) (s : Tokens) (v : Bytes) → v ≺ bytes t.value → IsSorted (t ∷ s) → Above v s
all_later t s v h c = All-map s (λ u r. ≺_trans v (bytes t.value) (bytes u.value) h r) c.0

-- Where the token tables of both fields are strictly ascending, the tokens that the merge
-- writes for the common field are strictly ascending too.
pub rounds-IsChain :
    (a b : Tokens)
    → IsSorted a
    → IsSorted b
    → IsChain (λ r s. bytes (value_of r) ≺ bytes (value_of s)) (rounds a b)
unfolding rounds
rounds-IsChain [] [] p q = tt
rounds-IsChain [] (y ∷ b) p q =
    (rounds-Above (bytes y.value) [] b tt q.0, rounds-IsChain [] b p q.1)
rounds-IsChain (x ∷ a) [] p q =
    (rounds-Above (bytes x.value) a [] p.0 tt, rounds-IsChain a [] p.1 q)
rounds-IsChain (x ∷ a) (y ∷ b) p q =
    elim (Ordering-cases (compare_bytes (bytes x.value) (bytes y.value))) [
      | inl e ↦
          rw (e, rounds)
            (
              rounds-Above (bytes x.value) a (y ∷ b) p.0 (e, all_later y b (bytes x.value) e q),
              rounds-IsChain a (y ∷ b) p.1 q,
            )
      | inr (inl e) ↦
          rw (e, rounds)
            (let same = compare_bytes-eq (bytes x.value) (bytes y.value) e in
              (
                rounds-Above (bytes x.value) a b p.0 (subst (λ v. Above v b) (sym same) q.0),
                rounds-IsChain a b p.1 q.1,
              ))
      | inr (inr e) ↦
          rw (e, rounds)
            (let h = compare_bytes-gt (bytes x.value) (bytes y.value) e in
              (
                rounds-Above (bytes y.value) (x ∷ a) b (h, all_later x a (bytes y.value) h p) q.0,
                rounds-IsChain (x ∷ a) b p q.1,
              ))
    ]

-- The round of a value, from the tokens that the two tables have for it.
abbrev pub round_of : Option Token → Option Token → Option Round
round_of none none = none
round_of none (some b) = some (only_b b)
round_of (some a) none = some (only_a a)
round_of (some a) (some b) = some (both a b)

abbrev pub round_is : Bytes → Round → Bool
round_is v r = is_eq (compare_bytes (bytes (value_of r)) v)

find?-Above : (v : Bytes) (s : Tokens) → Above v s → find? (value_is v) s ≡ none
find?-Above v [] h = refl
find?-Above v (t ∷ s) h =
    ground (arith, compare_bytes-lt v (bytes t.value) h.0, find?-Above v s h.1)

not_found-Above :
    (v : Bytes) (x : Token) (s : Tokens)
    → Above (bytes x.value) s
    → value_is v x ≡ true
    → find? (value_is v) s ≡ none
not_found-Above v x s above h =
    find?-Above v s
      (subst (λ w. Above w s) (compare_bytes-eq (bytes x.value) v (ground arith)) above)

-- Where both tables are strictly ascending: for every value, the round of the walk that writes
-- it takes A's token of that value and B's, or the one of the two that exists, and there is
-- such a round exactly if one exists.
pub find?-rounds :
    (v : Bytes) (a b : Tokens)
    → IsSorted a
    → IsSorted b
    → find? (round_is v) (rounds a b) ≡ round_of (find? (value_is v) a) (find? (value_is v) b)
unfolding rounds
find?-rounds v [] [] p q = refl
find?-rounds v [] (y ∷ b) p q = ground (arith, find?-rounds v [] b p q.1)
find?-rounds v (x ∷ a) [] p q = ground (arith, find?-rounds v a [] p.1 q)
find?-rounds v (x ∷ a) (y ∷ b) p q =
    elim (Ordering-cases (compare_bytes (bytes x.value) (bytes y.value))) [
      | inl e ↦
          rw (e, rounds)
            (ground (
              arith,
              find?-rounds v a (y ∷ b) p.1 q,
              not_found-Above v x (y ∷ b) (e, all_later y b (bytes x.value) e q),
            ))
      | inr (inl e) ↦
          rw (e, rounds)
            (ground (
              arith,
              find?-rounds v a b p.1 q.1,
              ap (λ w. is_eq (compare_bytes w v))
                  (compare_bytes-eq (bytes x.value) (bytes y.value) e),
            ))
      | inr (inr e) ↦
          rw (e, rounds)
            (let h = compare_bytes-gt (bytes x.value) (bytes y.value) e in
              ground (
                arith,
                find?-rounds v (x ∷ a) b p q.1,
                not_found-Above v y (x ∷ a) (h, all_later x a (bytes y.value) h p),
              ))
    ]
