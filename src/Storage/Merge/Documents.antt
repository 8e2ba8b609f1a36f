-- ===== src/Storage/Merge/Documents.antt =====
-- The documents of a merged posting list: `addOffsetFrom` moves every index of B behind A's.
use textiplex.Prelude.{
  ℕ, zero, suc, ◌<◌, ◌≤◌, ◌≡◌, refl, ap, ◌∙◌, sym, Bool, true, false, ◌||◌, Option, none, some,
  List, [], ◌∷◌, length, map, ◌>>=◌, arith, bind-eq-some, Bool-cases, inl, inr, take, drop, ltb,
  ◌==◌, length-take, length-drop,
}
use mathlib.Core.Option.{some-injective}
use textiplex.Bytes.{Bytes}
use textiplex.Search.Chain.{any}
use textiplex.Roaring.{Roaring, contains, IsRoaring}
use textiplex.Storage.Segment.{Storage, unsafe_bitmap, get_posting_list}
use textiplex.Storage.Merge.Context.{PendingPostingList, offset_index}
use textiplex.Storage.Merge.Assemble.{
  merged_posting_list, add_offset_loop, add_offset_from, offset_bitmap_cached_size,
}

or_assoc : (a b c : Bool) → ((a || b) || c) ≡ (a || (b || c))
or_assoc a b c = ground arith

or-false : (a : Bool) → (a || false) ≡ a
or-false a = ground arith

any-take-drop :
    {A : Type 0} (p : ℕ → Bool) (f : A → ℕ) (n : ℕ) (xs : List A)
    → any p (map f xs) ≡ (any p (map f (take n xs)) || any p (map f (drop n xs)))
any-take-drop p f zero xs = refl
any-take-drop p f (suc n) [] = refl
any-take-drop p f (suc n) (x ∷ xs) = ground (arith, any-take-drop p f n xs)

drop_short {ℓ} : {A : Type ℓ} (n : ℕ) (xs : List A) → length xs ≤ n → drop n xs ≡ []
drop_short zero [] h = refl
drop_short zero (x ∷ xs) h = absurd (omega arith)
drop_short (suc n) [] h = refl
drop_short (suc n) (x ∷ xs) h = drop_short n xs (omega arith)

nothing : (l : List ℕ) → ((x : ℕ) → any (λ y. y == x) l ≡ false) → l ≡ []
nothing [] h = refl
nothing (y ∷ l) h = ground (arith, h y)

module _ (r : Roaring) (laws : IsRoaring r) (offset : ℕ) where
  -- The indexes of a list, moved behind those of the first storage.
  abbrev pub moved : List ℕ → ℕ → Bool
  moved xs x = any (λ y. y == x) (map (offset_index offset) xs)

  add_offset_loop_lem :
      (fuel : ℕ) (dst : r.Bitmap) (xs : List ℕ) (x : ℕ)
      → length xs < fuel
      → contains r (add_offset_loop r offset fuel dst xs) x ≡ (contains r dst x || moved xs x)
  unfolding add_offset_loop
  add_offset_loop_lem zero dst xs x h = absurd (omega arith)
  add_offset_loop_lem (suc fuel) dst xs x h =
      let chunk = map (offset_index offset) (take offset_bitmap_cached_size xs) in
      let added = laws.contains-add_many dst chunk x in
      let parts = any-take-drop (λ y. y == x) (offset_index offset) offset_bitmap_cached_size xs in
      elim (Bool-cases (ltb (length (take offset_bitmap_cached_size xs)) 8)) [
        | inl last ↦
            rw (last, add_offset_loop)
              (let all_taken : moved xs x ≡ any (λ y. y == x) chunk =
                  rw (drop_short offset_bitmap_cached_size xs (short last)) at parts ∙ or-false _ in
                added ∙ ap (λ b. contains r dst x || b) (sym all_taken))
        | inr more ↦
            rw (more, add_offset_loop)
              (add_offset_loop_lem fuel (r.add_many dst chunk) (drop offset_bitmap_cached_size xs) x
                  (less_left more)
                ∙ ap (λ b. b || moved (drop offset_bitmap_cached_size xs) x) added
                ∙ or_assoc (contains r dst x) (any (λ y. y == x) chunk)
                    (moved (drop offset_bitmap_cached_size xs) x)
                ∙ ap (λ b. contains r dst x || b) (sym parts))
      ]
    where
      short :
          ltb (length (take offset_bitmap_cached_size xs)) 8 ≡ true
          → length xs ≤ offset_bitmap_cached_size
      short e = ground (arith, length-take offset_bitmap_cached_size xs)

      less_left :
          ltb (length (take offset_bitmap_cached_size xs)) 8 ≡ false
          → length (drop offset_bitmap_cached_size xs) < fuel
      less_left e = ground (
        arith,
        length-take offset_bitmap_cached_size xs,
        length-drop offset_bitmap_cached_size xs,
      )

  -- The result holds what the destination held and every element of the source, moved, and
  -- nothing else, however many chunks the iterator returns.
  pub contains-add_offset_from :
      (dst src : r.Bitmap) (x : ℕ)
      → contains r (add_offset_from r offset dst src) x
        ≡ (contains r dst x || moved (r.to_array src) x)
  unfolding add_offset_from
  contains-add_offset_from dst src x =
      add_offset_loop_lem (suc (length (r.to_array src))) dst (r.to_array src) x (omega arith)

  unsafe_bitmap-serialize : (b : r.Bitmap) → unsafe_bitmap r (record { bytes = r.serialize b }) ≡ b
  unfolding unsafe_bitmap
  unsafe_bitmap-serialize b =
      go (r.serialize b) (laws.serialize-ne-nil b) (laws.from_unsafe_bytes-serialize b)
    where
      go :
          (l : Bytes)
          → (l ≡ [] → ⊥)
          → r.from_unsafe_bytes l ≡ some b
          → unsafe_bitmap r (record { bytes = l }) ≡ b
      go [] h e = absurd (h refl)
      go (d ∷ ds) h e = rw (e, unsafe_bitmap)

  module _ (storage_a storage_b : Storage) where
    -- The documents of a pending entry: those of A's list, and those of B's, moved.
    abbrev pub documents : Storage → Option ℕ → Option r.Bitmap
    documents s none = some r.empty
    documents s (some i) = get_posting_list s.posting_lists i >>= λ l. some (unsafe_bitmap r l)

    -- For a bitmap library that keeps its laws: when a posting list of the result is
    -- computed, both lists that it is made of can be read, and read back it holds the
    -- documents of A's list as they are, those of B's list moved by the offset, and no
    -- other.
    pub contains-merged_posting_list :
        (p : PendingPostingList) (b : Bytes) (x : ℕ)
        → merged_posting_list r offset storage_a storage_b p ≡ some (some b)
        → (docs_a docs_b : r.Bitmap) × (documents storage_a p.index_a ≡ some docs_a)
          × (documents storage_b p.index_b ≡ some docs_b)
          × (contains r (unsafe_bitmap r (record { bytes = b })) x
              ≡ (contains r docs_a x || moved (r.to_array docs_b) x))
    unfolding merged_posting_list
    contains-merged_posting_list p b x h = go p.index_a p.index_b h
      where
        read_back :
            (dst src : r.Bitmap)
            → some (some (r.serialize (add_offset_from r offset dst src))) ≡ some (some b)
            → contains r (unsafe_bitmap r (record { bytes = b })) x
              ≡ (contains r dst x || moved (r.to_array src) x)
        read_back dst src e =
            rw
              (
                ← some-injective _ _ (some-injective _ _ e),
                unsafe_bitmap-serialize (add_offset_from r offset dst src),
              )
              (contains-add_offset_from dst src x)

        go :
            (i j : Option ℕ)
            → merged_posting_list r offset storage_a storage_b (record { index_a = i; index_b = j })
              ≡ some (some b)
            → (docs_a docs_b : r.Bitmap) × (documents storage_a i ≡ some docs_a)
              × (documents storage_b j ≡ some docs_b)
              × (contains r (unsafe_bitmap r (record { bytes = b })) x
                  ≡ (contains r docs_a x || moved (r.to_array docs_b) x))
        go none none h = cc
        go none (some j) h =
            let (l, e, done) = bind-eq-some (get_posting_list storage_b.posting_lists j) _ h in
            (r.empty, unsafe_bitmap r l, refl, rw e, read_back r.empty (unsafe_bitmap r l) done)
        go (some i) none h =
            let (l, e, done) = bind-eq-some (get_posting_list storage_a.posting_lists i) _ h in
            (
              unsafe_bitmap r l,
              r.empty,
              rw e,
              refl,
              rw
                  (
                    ← some-injective _ _ (some-injective _ _ done),
                    nothing (r.to_array r.empty) laws.contains-empty,
                  )
                  (sym (or-false _)),
            )
        go (some i) (some j) h =
            let (l, e, rest) = bind-eq-some (get_posting_list storage_a.posting_lists i) _ h in
            let (m, e', done) = bind-eq-some (get_posting_list storage_b.posting_lists j) _ rest in
            let a = unsafe_bitmap r l in
            (
              a,
              unsafe_bitmap r m,
              rw e,
              rw e',
              read_back (r.or r.empty a) (unsafe_bitmap r m) done
                  ∙ ap (λ c. c || moved (r.to_array (unsafe_bitmap r m)) x)
                      (laws.contains-or r.empty a x
                        ∙ ap (λ c. c || contains r a x) (laws.contains-empty x)),
            )
