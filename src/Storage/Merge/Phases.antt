-- ===== src/Storage/Merge/Phases.antt =====
-- The phases of `Merge` that write the fields follow the plan.
use textiplex.Prelude.{
  ℕ, ◌≡◌, refl, ap, ◌∙◌, Option, some, List, [], ◌∷◌, ◌++◌, map, subst, bind-eq-some,
}
use mathlib.Core.Option.{some-injective}
use textiplex.Storage.Headers.{Float32}
use textiplex.Storage.Segment.{Storage, lookup_field}
use textiplex.Storage.Merge.Context.{
  MergeContext, FieldsOrder, Round, only_a, only_b, rounds, for_each,
}
use textiplex.Storage.Merge.Emit.{emit_field_a, emit_field_b, emit_collision, emit_fields}
use textiplex.Storage.Merge.Plan.{plan_all, rounds_a, rounds_b, rounds_collision, plan}
use textiplex.Storage.Merge.Emitted.{
  Emits, Emits-nil, Emits-append, section-Emits, fold-write_token_a, fold-write_token_b,
}

-- A loop over field names writes the plan of each.
for_each-Emits :
    (step : MergeContext → ℕ → Option MergeContext) (p : ℕ → Option (List Round))
    → ((c : MergeContext) (h : ℕ) (d : MergeContext)
        → step c h ≡ some d
        → (rs : List Round) × (p h ≡ some rs) × Emits rs c d)
    → (hs : List ℕ) (c e : MergeContext) → for_each step c hs ≡ some e
    → (rs : List Round) × (plan_all p hs ≡ some rs) × Emits rs c e
unfolding for_each
for_each-Emits step p one [] c e h =
    ([], refl, subst (λ x. Emits [] c x) (some-injective _ _ h) (Emits-nil c))
for_each-Emits step p one (x ∷ hs) c e h =
    let (d, first, rest) = bind-eq-some (step c x) (λ t. for_each step t hs) h in
    let (rs, planned, emits) = one c x d first in
    let (ss, planned', emits') = for_each-Emits step p one hs d e rest in
    (rs ++ ss, rw (planned, planned'), Emits-append rs ss c d e emits emits')

module _ (storage_a storage_b : Storage) (offset : ℕ) (average : ℕ → ℕ → Float32) where
  emit_field_a-Emits :
      (c : MergeContext) (h : ℕ) (d : MergeContext)
      → emit_field_a storage_a storage_b offset c h ≡ some d
      → (rs : List Round) × (rounds_a storage_a storage_b h ≡ some rs) × Emits rs c d
  unfolding emit_field_a
  emit_field_a-Emits c h d e =
      let (f, found, done) = bind-eq-some (lookup_field h storage_a.fields) _ e in
      (
        map only_a f.tokens,
        rw found,
        subst (λ x. Emits (map only_a f.tokens) c x) (some-injective _ _ done)
            (rw fold-write_token_a (section-Emits _ _ (map only_a f.tokens) c)),
      )

  emit_field_b-Emits :
      (c : MergeContext) (h : ℕ) (d : MergeContext)
      → emit_field_b storage_a storage_b offset c h ≡ some d
      → (rs : List Round) × (rounds_b storage_a storage_b h ≡ some rs) × Emits rs c d
  unfolding emit_field_b
  emit_field_b-Emits c h d e =
      let (f, found, done) = bind-eq-some (lookup_field h storage_b.fields) _ e in
      (
        map only_b f.tokens,
        rw found,
        subst (λ x. Emits (map only_b f.tokens) c x) (some-injective _ _ done)
            (rw fold-write_token_b (section-Emits _ _ (map only_b f.tokens) c)),
      )

  emit_collision-Emits :
      (c : MergeContext) (h : ℕ) (d : MergeContext)
      → emit_collision storage_a storage_b offset average c h ≡ some d
      → (rs : List Round) × (rounds_collision storage_a storage_b h ≡ some rs) × Emits rs c d
  unfolding emit_collision
  emit_collision-Emits c h d e =
      let (a, found_a, rest) = bind-eq-some (lookup_field h storage_a.fields) _ e in
      let (b, found_b, done) = bind-eq-some (lookup_field h storage_b.fields) _ rest in
      (
        rounds a.tokens b.tokens,
        rw (found_a, found_b),
        subst (λ x. Emits (rounds a.tokens b.tokens) c x) (some-injective _ _ done)
            (section-Emits _ _ (rounds a.tokens b.tokens) c),
      )

  -- The three phases write the tokens of the plan for the order of the fields.
  pub emit_fields-Emits :
      (c e : MergeContext)
      → emit_fields storage_a storage_b offset average c ≡ some e
      → (rs : List Round) × (plan storage_a storage_b c.fields_order ≡ some rs) × Emits rs c e
  unfolding emit_fields
  emit_fields-Emits c e h =
      let (c₁, pass_a, h₁) =
        bind-eq-some (for_each (emit_field_a storage_a storage_b offset) c c.fields_order.a) _ h in
      let (c₂, pass_b, pass_c) =
        bind-eq-some (for_each (emit_field_b storage_a storage_b offset) c₁ c₁.fields_order.b) _
          h₁ in
      let (x, plan_x, emits_x) =
        for_each-Emits _ _ emit_field_a-Emits c.fields_order.a c c₁ pass_a in
      let (y, plan_y, emits_y) =
        for_each-Emits _ _ emit_field_b-Emits c₁.fields_order.b c₁ c₂ pass_b in
      let (z, plan_z, emits_z) =
        for_each-Emits _ _ emit_collision-Emits c₂.fields_order.collision c₂ e pass_c in
      (
        x ++ (y ++ z),
        rw (
          plan_x,
          rw (ap (λ (o : FieldsOrder). o.b) emits_x.order) at plan_y,
          rw (ap (λ (o : FieldsOrder). o.collision) (emits_y.order ∙ emits_x.order)) at plan_z,
        ),
        Emits-append x (y ++ z) c c₁ e emits_x (Emits-append y z c₁ c₂ e emits_y emits_z),
      )
