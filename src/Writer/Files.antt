-- ===== src/Writer/Files.antt =====
-- The files of a directory, kept in the order of their names.
use textiplex.Prelude.{
  ◌+◌, ◌≤◌, ◌≡◌, refl, sym, subst, ◌∙◌, true, false, some, [], ◌∷◌, length, All, All-map, IsChain,
  Bool-cases, Ordering-cases, inl, inr, arith,
}
use textiplex.Bytes.{
  Bytes, compare_bytes, compare_bytes_self, compare_bytes-eq, compare_bytes-gt, ≺_trans, ◌≺◌,
}
use textiplex.Writer.{SegmentContent, Files, same_name, lookup_file, put_file, remove_file}

abbrev pub IsSorted : Files → Type 0
IsSorted = IsChain (λ p q. p.0 ≺ q.0)

same_name-eq : (a b : Bytes) → same_name a b ≡ true → a ≡ b
same_name-eq a b h = elim (Ordering-cases (compare_bytes a b)) [
  | inl e ↦ absurd (wrong (rw e at h))
  | inr (inl e) ↦ compare_bytes-eq a b e
  | inr (inr e) ↦ absurd (wrong (rw e at h))
]
  where
    wrong : false ≡ true → ⊥
    wrong h = ground arith

pub apart_sym : (a b : Bytes) → same_name a b ≡ false → same_name b a ≡ false
apart_sym a b h = elim (Bool-cases (same_name b a)) [
  | inl same ↦ absurd (
      wrong (
        sym (subst (λ c. same_name a c ≡ false) (same_name-eq b a same) h)
        ∙ rw (compare_bytes_self a) refl))
  | inr other ↦ other
]
  where
    wrong : false ≡ true → ⊥
    wrong h = ground arith

pub length-put_file :
    (name : Bytes) (c : SegmentContent) (files : Files)
    → length (put_file name c files) ≤ length files + 1
unfolding put_file
length-put_file name c [] = omega arith
length-put_file name c ((n, x) ∷ files) = elim (Ordering-cases (compare_bytes name n)) [
  | inl e ↦ rw (e, put_file) (omega arith)
  | inr (inl e) ↦ rw (e, put_file) (omega arith)
  | inr (inr e) ↦ rw (e, put_file) (omega (arith, length-put_file name c files))
]

pub length-remove_file :
    (name : Bytes) (c : SegmentContent) (files : Files)
    → lookup_file name files ≡ some c
    → length (remove_file name files) + 1 ≡ length files
unfolding lookup_file remove_file
length-remove_file name c [] h = ground arith
length-remove_file name c ((n, x) ∷ files) h = elim (Bool-cases (same_name n name)) [
  | inl same ↦ rw same (omega arith)
  | inr other ↦ rw other (omega (arith, length-remove_file name c files (rw other at h)))
]

pub lookup_file-put_file :
    (name : Bytes) (c : SegmentContent) (files : Files)
    → lookup_file name (put_file name c files) ≡ some c
unfolding lookup_file put_file
lookup_file-put_file name c [] = rw (compare_bytes_self name) refl
lookup_file-put_file name c ((n, x) ∷ files) = elim (Ordering-cases (compare_bytes name n)) [
  | inl e ↦ rw (e, put_file) (rw (compare_bytes_self name) refl)
  | inr (inl e) ↦ rw (e, put_file) (rw (compare_bytes_self name) refl)
  | inr (inr e) ↦
      rw (e, put_file) (rw (compare_bytes-gt name n e) (lookup_file-put_file name c files))
]

-- A file that stays, with its name and what it holds.
pub lookup_file-put_other :
    (name other : Bytes) (c x : SegmentContent) (files : Files)
    → same_name name other ≡ false
    → lookup_file other files ≡ some x
    → lookup_file other (put_file name c files) ≡ some x
unfolding lookup_file put_file
lookup_file-put_other name other c x [] apart h = ground arith
lookup_file-put_other name other c x ((n, y) ∷ files) apart h =
    elim (Ordering-cases (compare_bytes name n)) [
      | inl e ↦ rw (e, put_file) (rw apart h)
      | inr (inl e) ↦
          rw (e, put_file)
            (rw apart
              (rw (subst (λ m. same_name m other ≡ false) (compare_bytes-eq name n e) apart) at h))
      | inr (inr e) ↦
          rw (e, put_file)
            (elim (Bool-cases (same_name n other)) [
              | inl same ↦ rw same (rw same at h)
              | inr differ ↦
                  rw differ (lookup_file-put_other name other c x files apart (rw differ at h))
            ])
    ]

pub lookup_file-remove_other :
    (name other : Bytes) (x : SegmentContent) (files : Files)
    → same_name name other ≡ false
    → lookup_file other files ≡ some x
    → lookup_file other (remove_file name files) ≡ some x
unfolding lookup_file remove_file
lookup_file-remove_other name other x [] apart h = ground arith
lookup_file-remove_other name other x ((n, y) ∷ files) apart h =
    elim (Bool-cases (same_name n name)) [
      | inl same ↦
          rw same (
            rw (subst (λ m. same_name m other ≡ false) (sym (same_name-eq n name same)) apart) at h)
      | inr differ ↦ rw differ (elim (Bool-cases (same_name n other)) [
        | inl found ↦ rw found (rw found at h)
        | inr missed ↦
            rw missed (lookup_file-remove_other name other x files apart (rw missed at h))
      ])
    ]

put_file-All :
    (k name : Bytes) (c : SegmentContent) (files : Files)
    → k ≺ name
    → All (λ q. k ≺ q.0) files
    → All (λ q. k ≺ q.0) (put_file name c files)
unfolding put_file
put_file-All k name c [] l h = (l, tt)
put_file-All k name c ((n, x) ∷ files) l h = elim (Ordering-cases (compare_bytes name n)) [
  | inl e ↦ rw (e, put_file) (l, h)
  | inr (inl e) ↦ rw (e, put_file) (l, h.1)
  | inr (inr e) ↦ rw (e, put_file) (h.0, put_file-All k name c files l h.1)
]

pub put_file-IsSorted :
    (name : Bytes) (c : SegmentContent) (files : Files)
    → IsSorted files
    → IsSorted (put_file name c files)
unfolding put_file
put_file-IsSorted name c [] h = (tt, tt)
put_file-IsSorted name c ((n, x) ∷ files) h = elim (Ordering-cases (compare_bytes name n)) [
  | inl e ↦ rw (e, put_file) ((e, All-map files (λ q l. ≺_trans name n q.0 e l) h.0), h)
  | inr (inl e) ↦
      rw (e, put_file)
        (subst (λ m. All (λ q. m ≺ q.0) files) (sym (compare_bytes-eq name n e)) h.0, h.1)
  | inr (inr e) ↦
      rw (e, put_file)
        (
          put_file-All n name c files (compare_bytes-gt name n e) h.0,
          put_file-IsSorted name c files h.1,
        )
]

remove_file-All :
    (k name : Bytes) (files : Files)
    → All (λ q. k ≺ q.0) files
    → All (λ q. k ≺ q.0) (remove_file name files)
unfolding remove_file
remove_file-All k name [] h = tt
remove_file-All k name ((n, x) ∷ files) h = elim (Bool-cases (same_name n name)) [
  | inl same ↦ rw same h.1
  | inr other ↦ rw other (h.0, remove_file-All k name files h.1)
]

pub remove_file-IsSorted :
    (name : Bytes) (files : Files) → IsSorted files → IsSorted (remove_file name files)
unfolding remove_file
remove_file-IsSorted name [] h = tt
remove_file-IsSorted name ((n, x) ∷ files) h = elim (Bool-cases (same_name n name)) [
  | inl same ↦ rw same h.1
  | inr other ↦ rw other (remove_file-All n name files h.0, remove_file-IsSorted name files h.1)
]
