-- ===== src/Writer/Pairs.antt =====
-- A pair that `Writer.Merge` merges without an error leaves one file fewer, and the new one.
use textiplex.Prelude.{
  ℕ, ◌+◌, ◌≤◌, ◌<◌, ◌≡◌, ◌⊎◌, refl, ap, subst, ◌||◌, Bool, true, false, Option, none, some, [], ◌∷◌,
  length, Bool-cases, Option-cases, inl, inr, arith,
}
use textiplex.Bytes.{Bytes, ◌≺◌}
use textiplex.Roaring.{Roaring}
use textiplex.Storage.Headers.{Float32}
use textiplex.Storage.Segment.{Storage}
use textiplex.Storage.File.Endian.{Endian}
use textiplex.Storage.File.Load.{Outcome, loaded, failed, panicked}
use textiplex.Storage.Merge.Assemble.{merge}
use textiplex.Writer.{
  SegmentContent, merged, Files, Directory, same_name, lookup_file, put_file, remove_file,
  segment_name, Progress, done, failed_with, running, crashed, undetermined, load_file, after_load,
  merge_loaded, merge_pair,
}
use textiplex.Writer.Files.{
  IsSorted, apart_sym, length-put_file, length-remove_file, lookup_file-put_file,
  lookup_file-put_other, lookup_file-remove_other, put_file-IsSorted, remove_file-IsSorted,
}

or_false : (a b : Bool) → (a || b) ≡ false → (a ≡ false) × (b ≡ false)
or_false true b h = absurd (wrong h)
  where
    wrong : true ≡ false → ⊥
    wrong h = ground arith
or_false false b h = (refl, h)

found-length :
    (name : Bytes) (files : Files) (c : SegmentContent)
    → lookup_file name files ≡ some c
    → 0 < length files
unfolding lookup_file
found-length name [] c h = ground arith
found-length name (f ∷ files) c h = omega arith

pub less-differ : (a b : Bytes) → a ≺ b → same_name a b ≡ false
less-differ a b l = rw l refl

-- What a step without an error does to the files.
pub record IsShrunk (d d' : Directory) : Type 0 where
  pub sorted : IsSorted d.files → IsSorted d'.files
  pub fewer : length d'.files + 1 ≤ length d.files
  pub some_left : 0 < length d'.files

replaced-IsShrunk :
    (d : Directory) (counter : ℕ) (name a b : Bytes) (c x y : SegmentContent)
    → same_name name a ≡ false
    → same_name name b ≡ false
    → same_name a b ≡ false
    → lookup_file a d.files ≡ some x
    → lookup_file b d.files ≡ some y
    → IsShrunk d (record {
      files = remove_file b (remove_file a (put_file name c d.files));
      segment_counter = counter;
    })
replaced-IsShrunk d counter name a b c x y na nb ab ha hb =
    let files = put_file name c d.files in
    let has_a = lookup_file-put_other name a c x d.files na ha in
    let has_b =
      lookup_file-remove_other a b y files ab (lookup_file-put_other name b c y d.files nb hb) in
    record {
      sorted = λ h.
          remove_file-IsSorted b (remove_file a files)
            (remove_file-IsSorted a files (put_file-IsSorted name c d.files h));
      fewer = omega (
        arith,
        length-put_file name c d.files,
        length-remove_file a x files has_a,
        length-remove_file b y (remove_file a files) has_b,
      );
      some_left = found-length name _ c (
          lookup_file-remove_other b name c (remove_file a files) (apart_sym name b nb) (
            lookup_file-remove_other a name c files (apart_sym name a na)
              (lookup_file-put_file name c d.files)));
    }

pub Progress-cases :
    (p : Progress)
    → ((d : Directory) × (p ≡ done d))
      ⊎ (((d : Directory) × (p ≡ failed_with d))
          ⊎ (((d : Directory) × (p ≡ running d)) ⊎ ((p ≡ crashed) ⊎ (p ≡ undetermined))))
Progress-cases (done d) = inl (d, refl)
Progress-cases (failed_with d) = inr (inl (d, refl))
Progress-cases (running d) = inr (inr (inl (d, refl)))
Progress-cases crashed = inr (inr (inr (inl refl)))
Progress-cases undetermined = inr (inr (inr (inr refl)))

pub done-injective : (d d' : Directory) → done d ≡ done d' → d ≡ d'
done-injective d d' h = ap of_done h
  where
    of_done : Progress → Directory
    of_done (done t) = t
    of_done (failed_with t) = t
    of_done (running t) = t
    of_done crashed = d
    of_done undetermined = d

module _ (endian : Endian) (r : Roaring) (average : ℕ → ℕ → Float32) where
  after_load-done :
      (d d' : Directory) (o : Option (Outcome Storage)) (next : Storage → Progress)
      → after_load endian r average d o next ≡ done d'
      → (s : Storage) × (o ≡ some (loaded s)) × (next s ≡ done d')
  unfolding after_load
  after_load-done d d' none next h = ground arith
  after_load-done d d' (some (failed err s)) next h = ground arith
  after_load-done d d' (some panicked) next h = ground arith
  after_load-done d d' (some (loaded s)) next h = (s, refl, h)

  load_file-found :
      (name : Bytes) (files : Files) (o : Outcome Storage)
      → load_file endian r average name files ≡ some o
      → (c : SegmentContent) × (lookup_file name files ≡ some c)
  unfolding load_file
  load_file-found name files o h = elim (Option-cases (lookup_file name files)) [
    | inl missing ↦ ground arith
    | inr (c, found) ↦ (c, found)
  ]

  merge_loaded-IsShrunk :
      (d d' : Directory) (a b : Bytes) (sa sb : Storage) (x y : SegmentContent)
      → same_name a b ≡ false
      → lookup_file a d.files ≡ some x
      → lookup_file b d.files ≡ some y
      → merge_loaded endian r average d a b sa sb ≡ done d'
      → IsShrunk d d'
  unfolding merge_loaded
  merge_loaded-IsShrunk d d' a b sa sb x y ab ha hb h =
      let name = segment_name (d.segment_counter + 1) in
      elim (Bool-cases (same_name name a || same_name name b)) [
        | inl own ↦ ground (arith, rw own at h)
        | inr new ↦ elim (Option-cases (merge r average sa sb)) [
          | inl panic ↦ ground (arith, rw (new, panic) at h)
          | inr (file, e) ↦
              let (na, nb) = or_false (same_name name a) (same_name name b) new in
              subst (λ t. IsShrunk d t) (done-injective _ _ (rw (new, e) at h))
                (replaced-IsShrunk d (d.segment_counter + 1) name a b (merged file) x y na nb ab ha
                  hb)
        ]
      ]

  pub merge_pair-IsShrunk :
      (d d' : Directory) (a b : Bytes)
      → same_name a b ≡ false
      → merge_pair endian r average d a b ≡ done d'
      → IsShrunk d d'
  unfolding merge_pair
  merge_pair-IsShrunk d d' a b ab h =
      let (sa, la, h2) = after_load-done d d' (load_file endian r average a d.files) _ h in
      let (sb, lb, h3) = after_load-done d d' (load_file endian r average b d.files) _ h2 in
      let (x, ha) = load_file-found a d.files (loaded sa) la in
      let (y, hb) = load_file-found b d.files (loaded sb) lb in
      merge_loaded-IsShrunk d d' a b sa sb x y ab ha hb h3

  abbrev pub IsStopped : Progress → Type 0
  IsStopped (running d) = ⊥
  IsStopped (done d) = Unit
  IsStopped (failed_with d) = Unit
  IsStopped crashed = Unit
  IsStopped undetermined = Unit

  after_load-IsStopped :
      (d : Directory) (o : Option (Outcome Storage)) (next : Storage → Progress)
      → ((s : Storage) → IsStopped (next s))
      → IsStopped (after_load endian r average d o next)
  unfolding after_load
  after_load-IsStopped d none next h = tt
  after_load-IsStopped d (some (failed err s)) next h = tt
  after_load-IsStopped d (some panicked) next h = tt
  after_load-IsStopped d (some (loaded s)) next h = h s

  merge_loaded-IsStopped :
      (d : Directory) (a b : Bytes) (sa sb : Storage)
      → IsStopped (merge_loaded endian r average d a b sa sb)
  unfolding merge_loaded
  merge_loaded-IsStopped d a b sa sb =
      let name = segment_name (d.segment_counter + 1) in
      elim (Bool-cases (same_name name a || same_name name b)) [
        | inl own ↦ rw (own, IsStopped) tt
        | inr new ↦ elim (Option-cases (merge r average sa sb)) [
          | inl panic ↦ rw (new, panic, IsStopped) tt
          | inr (file, e) ↦ rw (new, e, IsStopped) tt
        ]
      ]

  pub merge_pair-IsStopped :
      (d : Directory) (a b : Bytes) → IsStopped (merge_pair endian r average d a b)
  unfolding merge_pair
  merge_pair-IsStopped d a b =
      after_load-IsStopped d (load_file endian r average a d.files) _ (λ sa.
        after_load-IsStopped d (load_file endian r average b d.files) _
          (λ sb. merge_loaded-IsStopped d a b sa sb))
