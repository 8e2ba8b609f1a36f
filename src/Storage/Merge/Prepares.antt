-- ===== src/Storage/Merge/Prepares.antt =====
-- The whole preparation pass.
use textiplex.Prelude.{
  ℕ, ◌≡◌, refl, ap, ◌∙◌, sym, Option, some, List, [], ◌∷◌, ◌++◌, arith, Option-cases, inl, inr,
  subst, bind-eq-some,
}
use mathlib.Core.List.{append_assoc, append-nil}
use mathlib.Core.Option.{some-injective}
use textiplex.Storage.Segment.{Storage, lookup_field, Fields}
use textiplex.Storage.Merge.Context.{MergeContext, FieldsOrder, Round, rounds, for_each}
use textiplex.Storage.Merge.Prepare.{
  prepare_field_a, prepare_field_b, prepare_collision, preparation_pass,
}
use textiplex.Storage.Merge.Plan.{
  rounds_a, rounds_b, rounds_collision, plan, HasUniqueKeys, merge_order, own_names, shared_names,
}
use textiplex.Storage.Merge.Prepared.{Prepares, Prepares-nil, Prepares-append, rounds-Prepares}
use textiplex.Storage.Merge.Ordered.{IsFound, unique-IsFound, Passes, own_field_a, own_field_b}

module _ (storage_a storage_b : Storage) (offset : ℕ) where
  abbrev PassesOver :
      (ℕ → Option (List Round)) → List ℕ → FieldsOrder → MergeContext → MergeContext → Type 0
  PassesOver = Passes storage_a storage_b offset

  Passes-nil : (p : ℕ → Option (List Round)) (c : MergeContext) → PassesOver p [] c.fields_order c c
  Passes-nil p c = record {
    rounds = [];
    planned = refl;
    prepares = Prepares-nil storage_a storage_b offset c;
    ordered = refl;
  }

  Passes-cons :
      (p : ℕ → Option (List Round)) (h : ℕ) (hs : List ℕ) (o o' : FieldsOrder)
      (c d e : MergeContext)
      → PassesOver p (h ∷ []) o c d
      → PassesOver p hs o' d e
      → PassesOver p (h ∷ hs) o' c e
  Passes-cons p h hs o o' c d e x y =
      let (rs, here, done) = bind-eq-some (p h) _ x.planned in
      record {
        rounds = x.rounds ++ y.rounds;
        planned =
            rw (here, y.planned)
              (ap (λ l. some (l ++ y.rounds)) (sym (append-nil rs) ∙ some-injective _ _ done));
        prepares =
            Prepares-append storage_a storage_b offset x.rounds y.rounds c d e x.prepares
              y.prepares;
        ordered = y.ordered;
      }

  -- A change of the order alone.
  Passes-reorder :
      (p : ℕ → Option (List Round)) (hs : List ℕ) (o o' : FieldsOrder) (c e : MergeContext)
      → PassesOver p hs o (record c { fields_order = o' }) e
      → PassesOver p hs o c e
  Passes-reorder p hs o o' c e x = record {
    rounds = x.rounds;
    planned = x.planned;
    prepares = record {
      entries = x.prepares.entries;
      planned = x.prepares.planned;
      frequencies = x.prepares.frequencies;
      counted = x.prepares.counted;
      cursor = x.prepares.cursor;
      frequencies_cursor = x.prepares.frequencies_cursor;
      pending = x.prepares.pending;
      sections = x.prepares.sections;
    };
    ordered = x.ordered;
  }

  abbrev order_a : FieldsOrder → Fields → FieldsOrder
  order_a o fs = record o {
    a = o.a ++ own_names storage_b.fields fs;
    collision = o.collision ++ shared_names storage_b.fields fs;
  }

  abbrev order_b : FieldsOrder → Fields → FieldsOrder
  order_b o fs = record o { b = o.b ++ own_names storage_a.fields fs }

  abbrev with_shared : MergeContext → ℕ → MergeContext
  with_shared c h = record c {
    fields_order = record (c.fields_order) { collision = c.fields_order.collision ++ h ∷ [] };
  }

  fields_a :
      (fs : Fields) (c e : MergeContext)
      → IsFound storage_a.fields fs
      → for_each (prepare_field_a storage_a storage_b offset) c fs ≡ some e
      → PassesOver
          (rounds_a storage_a storage_b)
          (own_names storage_b.fields fs)
          (order_a c.fields_order fs)
          c
          e
  unfolding for_each prepare_field_a
  fields_a [] c e found h =
      subst (λ x. PassesOver (rounds_a storage_a storage_b) [] (order_a c.fields_order []) c x)
        (some-injective _ _ h)
        (subst (λ o. PassesOver (rounds_a storage_a storage_b) [] o c c)
          (ground (arith, append-nil c.fields_order.a, append-nil c.fields_order.collision))
          (Passes-nil _ c))
  fields_a ((h, f) ∷ fs) c e found run =
      let (d, first, rest) =
        bind-eq-some (prepare_field_a storage_a storage_b offset c (h, f))
          (λ x. for_each (prepare_field_a storage_a storage_b offset) x fs) run in
      let later = fields_a fs d e found.1 rest in
      elim (Option-cases (lookup_field h storage_b.fields)) [
        | inl own ↦
            rw (own, own_names, shared_names)
              (let x =
                  own_field_a storage_a storage_b offset h f c d found.0
                    (rw (own, prepare_field_a) at first) in
                Passes-cons _ h _ _ _ c d e x (
                  subst
                    (λ o.
                      PassesOver (rounds_a storage_a storage_b) (own_names storage_b.fields fs) o d
                        e)
                    (ap (λ o. order_a o fs) x.ordered
                      ∙ ap (λ l. record (order_a c.fields_order fs) { a = l })
                          (append_assoc c.fields_order.a (h ∷ []) (own_names storage_b.fields fs)))
                    later))
        | inr (g, shared) ↦
            rw (shared, own_names, shared_names)
              (let same = some-injective _ _ (rw (shared, prepare_field_a) at first) in
                Passes-reorder _ _ _
                  (record (c.fields_order) { collision = c.fields_order.collision ++ h ∷ [] }) c e
                  (subst
                    (λ o.
                      PassesOver (rounds_a storage_a storage_b) (own_names storage_b.fields fs) o
                        (with_shared c h) e)
                    (ap (λ l. record (order_a c.fields_order fs) { collision = l })
                      (append_assoc c.fields_order.collision (h ∷ [])
                        (shared_names storage_b.fields fs)))
                    (subst
                      (λ x.
                        PassesOver (rounds_a storage_a storage_b) (own_names storage_b.fields fs)
                          (order_a x.fields_order fs) x e)
                      (sym same) later)))
      ]

  fields_b :
      (fs : Fields) (c e : MergeContext)
      → IsFound storage_b.fields fs
      → for_each (prepare_field_b storage_a storage_b offset) c fs ≡ some e
      → PassesOver
          (rounds_b storage_a storage_b)
          (own_names storage_a.fields fs)
          (order_b c.fields_order fs)
          c
          e
  unfolding for_each prepare_field_b
  fields_b [] c e found h =
      subst (λ x. PassesOver (rounds_b storage_a storage_b) [] (order_b c.fields_order []) c x)
        (some-injective _ _ h)
        (subst (λ o. PassesOver (rounds_b storage_a storage_b) [] o c c)
          (ground (arith, append-nil c.fields_order.b)) (Passes-nil _ c))
  fields_b ((h, f) ∷ fs) c e found run =
      let (d, first, rest) =
        bind-eq-some (prepare_field_b storage_a storage_b offset c (h, f))
          (λ x. for_each (prepare_field_b storage_a storage_b offset) x fs) run in
      let later = fields_b fs d e found.1 rest in
      elim (Option-cases (lookup_field h storage_a.fields)) [
        | inl own ↦
            rw (own, own_names)
              (let x =
                  own_field_b storage_a storage_b offset h f c d found.0
                    (rw (own, prepare_field_b) at first) in
                Passes-cons _ h _ _ _ c d e x (
                  subst
                    (λ o.
                      PassesOver (rounds_b storage_a storage_b) (own_names storage_a.fields fs) o d
                        e)
                    (ap (λ o. order_b o fs) x.ordered
                      ∙ ap (λ l. record (c.fields_order) { b = l })
                          (append_assoc c.fields_order.b (h ∷ []) (own_names storage_a.fields fs)))
                    later))
        | inr (g, shared) ↦
            rw (shared, own_names)
              (subst
                (λ x.
                  PassesOver (rounds_b storage_a storage_b) (own_names storage_a.fields fs)
                    (order_b x.fields_order fs) x e)
                (sym (some-injective _ _ (rw (shared, prepare_field_b) at first))) later)
      ]

  collision_field :
      (h : ℕ) (c d : MergeContext)
      → prepare_collision storage_a storage_b offset c h ≡ some d
      → PassesOver (rounds_collision storage_a storage_b) (h ∷ []) c.fields_order c d
  unfolding prepare_collision
  collision_field h c d run =
      let (a, found_a, run_a) = bind-eq-some (lookup_field h storage_a.fields) _ run in
      let (b, found_b, run_b) = bind-eq-some (lookup_field h storage_b.fields) _ run_a in
      let (p, o) =
        rounds-Prepares storage_a storage_b offset (rounds a.tokens b.tokens) c d run_b in
      record {
        rounds = rounds a.tokens b.tokens;
        planned = rw (found_a, found_b) (simp append-nil);
        prepares = p;
        ordered = o;
      }

  collisions :
      (hs : List ℕ) (c e : MergeContext)
      → for_each (prepare_collision storage_a storage_b offset) c hs ≡ some e
      → PassesOver (rounds_collision storage_a storage_b) hs c.fields_order c e
  unfolding for_each
  collisions [] c e h =
      subst (λ x. PassesOver (rounds_collision storage_a storage_b) [] c.fields_order c x)
        (some-injective _ _ h) (Passes-nil _ c)
  collisions (h ∷ hs) c e run =
      let (d, first, rest) =
        bind-eq-some (prepare_collision storage_a storage_b offset c h)
          (λ x. for_each (prepare_collision storage_a storage_b offset) x hs) run in
      let x = collision_field h c d first in
      Passes-cons _ h hs _ _ c d e x (
        subst (λ o. PassesOver (rounds_collision storage_a storage_b) hs o d e) x.ordered
          (collisions hs d e rest))

  -- The pass leaves the order of the fields and has written the entries of the plan.
  pub preparation_pass-Prepares :
      (c e : MergeContext)
      → HasUniqueKeys storage_a.fields
      → HasUniqueKeys storage_b.fields
      → c.fields_order ≡ record { a = []; b = []; collision = [] }
      → preparation_pass storage_a storage_b offset c ≡ some e
      → (rs : List Round) × (plan storage_a storage_b (merge_order storage_a storage_b) ≡ some rs)
        × (e.fields_order ≡ merge_order storage_a storage_b)
        × Prepares storage_a storage_b offset rs c e
  unfolding preparation_pass
  preparation_pass-Prepares c e ua ub start run =
      let (c₁, pass_a, run₁) =
        bind-eq-some (for_each (prepare_field_a storage_a storage_b offset) c storage_a.fields) _
          run in
      let (c₂, pass_b, run₂) =
        bind-eq-some (for_each (prepare_field_b storage_a storage_b offset) c₁ storage_b.fields) _
          run₁ in
      let x = fields_a storage_a.fields c c₁ (unique-IsFound _ ua) pass_a in
      let y = fields_b storage_b.fields c₁ c₂ (unique-IsFound _ ub) pass_b in
      let z = collisions c₂.fields_order.collision c₂ e run₂ in
      let o₁ = x.ordered ∙ ap (λ o. order_a o storage_a.fields) start in
      let o₂ : c₂.fields_order ≡ merge_order storage_a storage_b =
        y.ordered ∙ ap (λ o. order_b o storage_b.fields) o₁ in
      (
        x.rounds ++ (y.rounds ++ z.rounds),
        rw (x.planned, y.planned, rw (ap (λ (o : FieldsOrder). o.collision) o₂) at z.planned),
        z.ordered ∙ o₂,
        Prepares-append storage_a storage_b offset x.rounds (y.rounds ++ z.rounds) c c₁ e x.prepares
            (Prepares-append storage_a storage_b offset y.rounds z.rounds c₁ c₂ e y.prepares
              z.prepares),
      )
