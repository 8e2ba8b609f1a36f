-- ===== src/Storage/Merge/Ordered.antt =====
-- The preparation pass over whole fields: it leaves the order of the fields and has written the
-- entries of their plan.
use textiplex.Prelude.{
  ℕ, ◌+◌, ◌≡◌, refl, ap, ◌∙◌, sym, Option, some, List, [], ◌∷◌, ◌++◌, length, map, arith, subst,
  bind-eq-some, All, All-map, length-map,
}
use mathlib.Core.List.{append_assoc, append-nil}
use mathlib.Core.Option.{some-injective}
use textiplex.Storage.Headers.{TokenFrequencies}
use textiplex.Storage.Tokens.{Tokens}
use textiplex.Storage.Segment.{Storage, lookup_field, Field, Fields}
use textiplex.Storage.Merge.Context.{
  MergeContext, FieldsOrder, Round, only_a, only_b, for_each, frequencies_of, offset_frequency,
}
use textiplex.Storage.Merge.Whole.{written-eq-some}
use textiplex.Storage.Merge.Prepare.{write_frequencies_a, write_frequencies_b}
use textiplex.Storage.Merge.Plan.{blocks, plan_all, rounds_a, rounds_b, HasUniqueKeys}
use textiplex.Storage.Merge.Prepared.{Prepares}

-- Every entry of the list is what its name stands for in the map.
abbrev pub IsFound : Fields → Fields → Type 0
IsFound m = All (λ e. lookup_field e.0 m ≡ some e.1)

pub unique-IsFound : (fs : Fields) → HasUniqueKeys fs → IsFound fs fs
unfolding lookup_field
unique-IsFound [] u = tt
unique-IsFound ((h, f) ∷ fs) u =
    (ground arith, All-map fs (λ e found. ground (arith, u.0)) (unique-IsFound fs u.1))

module _ (storage_a storage_b : Storage) (offset : ℕ) where
  write_a_loop :
      (ts : Tokens) (c e : MergeContext)
      → for_each (write_frequencies_a storage_a storage_b offset) c ts ≡ some e
      → (f : TokenFrequencies) × (blocks storage_a storage_b offset (map only_a ts) ≡ some f)
        × (e ≡ record c { frequencies = c.frequencies ++ f })
  unfolding for_each write_frequencies_a
  write_a_loop [] c e h = (
    [],
    refl,
    sym (some-injective _ _ h)
        ∙ ap (λ l. record c { frequencies = l }) (sym (append-nil c.frequencies)),
  )
  write_a_loop (t ∷ ts) c e h =
      let (d, first, rest) =
        bind-eq-some (write_frequencies_a storage_a storage_b offset c t)
          (λ x. for_each (write_frequencies_a storage_a storage_b offset) x ts) h in
      let (f, e₁, done) = written-eq-some (frequencies_of storage_a t) _ _ first in
      let (g, e₂, last) = write_a_loop ts d e rest in
      (
        f ++ g,
        rw (e₁, e₂),
        last
            ∙ ap (λ (x : MergeContext). record x { frequencies = x.frequencies ++ g })
                (sym (some-injective _ _ done))
            ∙ ap (λ l. record c { frequencies = l }) (append_assoc c.frequencies f g),
      )

  write_b_loop :
      (ts : Tokens) (c e : MergeContext)
      → for_each (write_frequencies_b storage_a storage_b offset) c ts ≡ some e
      → (f : TokenFrequencies) × (blocks storage_a storage_b offset (map only_b ts) ≡ some f)
        × (e ≡ record c { frequencies = c.frequencies ++ f })
  unfolding for_each write_frequencies_b
  write_b_loop [] c e h = (
    [],
    refl,
    sym (some-injective _ _ h)
        ∙ ap (λ l. record c { frequencies = l }) (sym (append-nil c.frequencies)),
  )
  write_b_loop (t ∷ ts) c e h =
      let (d, first, rest) =
        bind-eq-some (write_frequencies_b storage_a storage_b offset c t)
          (λ x. for_each (write_frequencies_b storage_a storage_b offset) x ts) h in
      let (f, e₁, done) = bind-eq-some (frequencies_of storage_b t) _ first in
      let (g, e₂, last) = write_b_loop ts d e rest in
      (
        map (offset_frequency offset) f ++ g,
        rw (e₁, e₂),
        last
            ∙ ap (λ (x : MergeContext). record x { frequencies = x.frequencies ++ g })
                (sym (some-injective _ _ done))
            ∙ ap (λ l. record c { frequencies = l })
                (append_assoc c.frequencies (map (offset_frequency offset) f) g),
      )

  -- What a pass over fields does: their plan, and the names by which the order grows.
  pub record Passes (p : ℕ → Option (List Round)) (own : List ℕ) (order : FieldsOrder)
      (c e : MergeContext) : Type 0 where
    pub rounds : List Round
    pub planned : plan_all p own ≡ some rounds
    pub prepares : Prepares storage_a storage_b offset rounds c e
    pub ordered : e.fields_order ≡ order

  -- One field of A that B lacks.
  pub own_field_a :
      (h : ℕ) (f : Field) (c d : MergeContext)
      → lookup_field h storage_a.fields ≡ some f
      → for_each
          (write_frequencies_a storage_a storage_b offset)
          (record c {
            fields_order = record (c.fields_order) { a = c.fields_order.a ++ h ∷ [] };
            posting_list_count = c.posting_list_count + length f.tokens;
          })
          f.tokens
        ≡ some d
      → Passes
          (rounds_a storage_a storage_b)
          (h ∷ [])
          (record (c.fields_order) { a = c.fields_order.a ++ h ∷ [] })
          c
          d
  own_field_a h f c d found run =
      let (g, planned, result) = write_a_loop f.tokens _ d run in
      subst
        (λ x.
          Passes (rounds_a storage_a storage_b) (h ∷ [])
            (record (c.fields_order) { a = c.fields_order.a ++ h ∷ [] }) c x)
        (sym result)
        (record {
          rounds = map only_a f.tokens;
          planned = rw found (simp append-nil);
          prepares = record {
            entries = g;
            planned = planned;
            frequencies = refl;
            counted = rw length-map refl;
            cursor = refl;
            frequencies_cursor = refl;
            pending = refl;
            sections = refl;
          };
          ordered = refl;
        })

  pub own_field_b :
      (h : ℕ) (f : Field) (c d : MergeContext)
      → lookup_field h storage_b.fields ≡ some f
      → for_each
          (write_frequencies_b storage_a storage_b offset)
          (record c {
            fields_order = record (c.fields_order) { b = c.fields_order.b ++ h ∷ [] };
            posting_list_count = c.posting_list_count + length f.tokens;
          })
          f.tokens
        ≡ some d
      → Passes
          (rounds_b storage_a storage_b)
          (h ∷ [])
          (record (c.fields_order) { b = c.fields_order.b ++ h ∷ [] })
          c
          d
  own_field_b h f c d found run =
      let (g, planned, result) = write_b_loop f.tokens _ d run in
      subst
        (λ x.
          Passes (rounds_b storage_a storage_b) (h ∷ [])
            (record (c.fields_order) { b = c.fields_order.b ++ h ∷ [] }) c x)
        (sym result)
        (record {
          rounds = map only_b f.tokens;
          planned = rw found (simp append-nil);
          prepares = record {
            entries = g;
            planned = planned;
            frequencies = refl;
            counted = rw length-map refl;
            cursor = refl;
            frequencies_cursor = refl;
            pending = refl;
            sections = refl;
          };
          ordered = refl;
        })
