-- ===== src/Storage/Merge/Aligned.antt =====
-- The two passes of a merge agree: each token of the result points at its own entries.
use textiplex.Prelude.{
  ℕ, zero, suc, ◌+◌, ◌≡◌, refl, ◌∙◌, some, List, [], ◌∷◌, ◌++◌, length, map, slice, get_elem?,
  arith, subst, bind-eq-some, length-append, length-slice, slice-append, length-map,
}
use mathlib.Core.List.{append_assoc}
use mathlib.Core.Option.{some-injective}
use textiplex.Storage.Headers.{Token, TokenFrequencies}
use textiplex.Storage.Segment.{Storage}
use textiplex.Storage.Merge.Context.{Round, only_a, only_b, both, frequencies_of, offset_frequency}
use textiplex.Storage.Merge.Plan.{entries_of, value_of, place, block, blocks}

module _ (storage_a storage_b : Storage) (offset : ℕ) where
  length-frequencies_of :
      (s : Storage) (t : Token) (f : TokenFrequencies)
      → frequencies_of s t ≡ some f
      → length f ≡ t.frequency_count
  unfolding frequencies_of
  length-frequencies_of s t f h = omega (
    arith,
    length-slice s.token_frequencies t.frequencies_index (t.frequencies_index + t.frequency_count) f
        h,
  )

  pub length-block :
      (r : Round) (f : TokenFrequencies)
      → block storage_a storage_b offset r ≡ some f
      → length f ≡ entries_of r
  length-block (only_a t) f h = length-frequencies_of storage_a t f h
  length-block (only_b t) f h =
      let (g, e, done) = bind-eq-some (frequencies_of storage_b t) _ h in
      rw (← some-injective _ _ done) (length-map _ g ∙ length-frequencies_of storage_b t g e)
  length-block (both a b) f h =
      let (g, e, rest) = bind-eq-some (frequencies_of storage_a a) _ h in
      let (k, e', done) = bind-eq-some (frequencies_of storage_b b) _ rest in
      rw (← some-injective _ _ done) (
        omega (
          arith,
          length-append g (map (offset_frequency offset) k),
          length-map (offset_frequency offset) k,
          length-frequencies_of storage_a a g e,
          length-frequencies_of storage_b b k e',
        ))

  -- The token at `i` of the result, and the entries at which it points.
  pub record PointsAt (rs : List Round) (pc : ℕ) (frequencies : TokenFrequencies) (i : ℕ)
      (t : Token) : Type 0 where
    pub round : Round
    pub taken : get_elem? rs i ≡ some round
    pub value : t.value ≡ value_of round
    pub posting_list : t.posting_list_index ≡ pc + i
    pub entries :
        slice frequencies t.frequencies_index (t.frequencies_index + t.frequency_count)
        ≡ block storage_a storage_b offset round

  pub place-PointsAt :
      (rs : List Round) (pc fc i : ℕ) (t : Token) (pre f : TokenFrequencies)
      → length pre ≡ fc
      → blocks storage_a storage_b offset rs ≡ some f
      → get_elem? (place pc fc rs) i ≡ some t
      → PointsAt rs pc (pre ++ f) i t
  place-PointsAt [] pc fc i t pre f here planned found = ground arith
  place-PointsAt (r ∷ rs) pc fc zero t pre f here planned found =
      let (g, own, rest) = bind-eq-some (block storage_a storage_b offset r) _ planned in
      let (k, later, done) = bind-eq-some (blocks storage_a storage_b offset rs) _ rest in
      subst (λ t. PointsAt (r ∷ rs) pc (pre ++ f) zero t) (some-injective _ _ found)
        (record {
          round = r;
          taken = refl;
          value = refl;
          posting_list = omega arith;
          entries =
              rw (own, ← some-injective _ _ done, ← here, ← length-block r g own)
                (slice-append pre g k);
        })
  place-PointsAt (r ∷ rs) pc fc (suc i) t pre f here planned found =
      let (g, own, rest) = bind-eq-some (block storage_a storage_b offset r) _ planned in
      let (k, later, done) = bind-eq-some (blocks storage_a storage_b offset rs) _ rest in
      let p =
        place-PointsAt rs (pc + 1) (fc + entries_of r) i t (pre ++ g) k
          (omega (arith, length-append pre g, length-block r g own)) later found in
      record {
        round = p.round;
        taken = p.taken;
        value = p.value;
        posting_list = omega (arith, p.posting_list);
        entries = rw (← some-injective _ _ done, ← append_assoc pre g k) p.entries;
      }
