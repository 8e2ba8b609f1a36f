-- ===== src/Writer/Rounds.antt =====
-- A round of `Writer.Merge` leaves fewer files, but not none, and so the loop ends.
use textiplex.Prelude.{
  ℕ, zero, suc, ◌+◌, ◌≤◌, ◌<◌, ◌≡◌, ◌≢◌, subst, Bool, true, false, [], ◌∷◌, length, Bool-cases, inl,
  inr, ◌==◌, arith,
}
use textiplex.Roaring.{Roaring}
use textiplex.Storage.Headers.{Float32}
use textiplex.Storage.File.Endian.{Endian}
use textiplex.Writer.{
  Files, Directory, Progress, done, failed_with, running, crashed, undetermined, merge_pair,
  merge_chunks, merge_directory,
}
use textiplex.Writer.Files.{IsSorted}
use textiplex.Writer.Pairs.{
  IsStopped, Progress-cases, done-injective, less-differ, merge_pair-IsShrunk, merge_pair-IsStopped,
}

-- The call has returned, and without an error there is one file.
abbrev pub HasEnded : Progress → Type 0
HasEnded (running d) = ⊥
HasEnded (done d) = length d.files ≡ 1
HasEnded (failed_with d) = Unit
HasEnded crashed = Unit
HasEnded undetermined = Unit

module _ (endian : Endian) (r : Roaring) (average : ℕ → ℕ → Float32) where
  merge_chunks-IsStopped :
      (entries : Files) (d : Directory) (failing : Bool)
      → IsStopped endian r average (merge_chunks endian r average entries d failing)
  unfolding merge_chunks
  merge_chunks-IsStopped [] d true = tt
  merge_chunks-IsStopped [] d false = tt
  merge_chunks-IsStopped (a ∷ []) d true = tt
  merge_chunks-IsStopped (a ∷ []) d false = tt
  merge_chunks-IsStopped (a ∷ b ∷ rest) d failing =
      elim (Progress-cases (merge_pair endian r average d a.0 b.0)) [
        | inl (t, e) ↦ rw (e, IsStopped) (merge_chunks-IsStopped rest t failing)
        | inr (inl (t, e)) ↦ rw (e, IsStopped) (merge_chunks-IsStopped rest t true)
        | inr (inr (inl (t, e))) ↦
            absurd (
              subst (IsStopped endian r average) e
                (merge_pair-IsStopped endian r average d a.0 b.0))
        | inr (inr (inr (inl e))) ↦ rw (e, IsStopped) tt
        | inr (inr (inr (inr e))) ↦ rw (e, IsStopped) tt
      ]

  -- An error of a pair is the result of the round.
  failing_round :
      (entries : Files) (d d' : Directory) → merge_chunks endian r average entries d true ≢ done d'
  unfolding merge_chunks
  failing_round [] d d' h = ground arith
  failing_round (a ∷ []) d d' h = ground arith
  failing_round (a ∷ b ∷ rest) d d' h =
      elim (Progress-cases (merge_pair endian r average d a.0 b.0)) [
        | inl (t, e) ↦ failing_round rest t d' (rw (e, merge_chunks) at h)
        | inr (inl (t, e)) ↦ failing_round rest t d' (rw (e, merge_chunks) at h)
        | inr (inr (inl (t, e))) ↦ ground (arith, rw (e, merge_chunks) at h)
        | inr (inr (inr (inl e))) ↦ ground (arith, rw (e, merge_chunks) at h)
        | inr (inr (inr (inr e))) ↦ ground (arith, rw (e, merge_chunks) at h)
      ]

  abbrev IsRound : Files → Directory → Directory → Type 0
  IsRound entries d d' =
      (IsSorted d.files → IsSorted d'.files)
      × (length d'.files ≤ length d.files)
      × (0 < length d.files → 0 < length d'.files)
      × (2 ≤ length entries → length d'.files + 1 ≤ length d.files)

  merge_chunks-IsRound :
      (entries : Files) (d d' : Directory)
      → IsSorted entries
      → merge_chunks endian r average entries d false ≡ done d'
      → IsRound entries d d'
  unfolding merge_chunks
  merge_chunks-IsRound [] d d' c h =
      subst (IsRound [] d) (done-injective _ _ h)
        (λ k. k, omega arith, λ k. k, λ k. absurd (omega (arith, k)))
  merge_chunks-IsRound (a ∷ []) d d' c h =
      subst (IsRound (a ∷ []) d) (done-injective _ _ h)
        (λ k. k, omega arith, λ k. k, λ k. absurd (omega (arith, k)))
  merge_chunks-IsRound (a ∷ b ∷ rest) d d' c h =
      elim (Progress-cases (merge_pair endian r average d a.0 b.0)) [
        | inl (t, e) ↦
            (let first =
                merge_pair-IsShrunk endian r average d t a.0 b.0 (less-differ a.0 b.0 (c.0.0)) e in
              let (keeps, less, left, fewer) =
                merge_chunks-IsRound rest t d' c.1.1 (rw (e, merge_chunks) at h) in
              (
                λ k. keeps (first.sorted k),
                omega (arith, less, first.fewer),
                λ k. left first.some_left,
                λ k. omega (arith, less, first.fewer),
              ))
        | inr (inl (t, e)) ↦ absurd (failing_round rest t d' (rw (e, merge_chunks) at h))
        | inr (inr (inl (t, e))) ↦ ground (arith, rw (e, merge_chunks) at h)
        | inr (inr (inr (inl e))) ↦ ground (arith, rw (e, merge_chunks) at h)
        | inr (inr (inr (inr e))) ↦ ground (arith, rw (e, merge_chunks) at h)
      ]

  -- On a directory with at least one file, in the order of the names, and with the pairs of
  -- a round merged one by one in that order: `Writer.Merge` comes to an end after at most as
  -- many rounds as there are files. Where it returns without an error, exactly one file is
  -- left; otherwise it returns an error, panics, or merges a segment into one of its own two
  -- files.
  pub merge_directory-HasEnded :
      (fuel : ℕ) (d : Directory)
      → IsSorted d.files
      → 0 < length d.files
      → length d.files ≤ fuel
      → HasEnded (merge_directory endian r average fuel d)
  unfolding merge_directory
  merge_directory-HasEnded zero d c l m = absurd (omega (arith, l, m))
  merge_directory-HasEnded (suc fuel) d c l m = elim (Bool-cases (length d.files == 1)) [
    | inl one ↦ rw (one, HasEnded) (only (length d.files) one)
    | inr more ↦ elim (Progress-cases (merge_chunks endian r average d.files d false)) [
      | inl (t, e) ↦
          (let (keeps, less, left, fewer) = merge_chunks-IsRound d.files d t c e in
            rw (more, e, HasEnded)
              (merge_directory-HasEnded fuel t (keeps c) (left l)
                (omega (arith, fewer (pair (length d.files) more l), m))))
      | inr (inl (t, e)) ↦ rw (more, e, HasEnded) tt
      | inr (inr (inl (t, e))) ↦
          absurd (subst (IsStopped endian r average) e (merge_chunks-IsStopped d.files d false))
      | inr (inr (inr (inl e))) ↦ rw (more, e, HasEnded) tt
      | inr (inr (inr (inr e))) ↦ rw (more, e, HasEnded) tt
    ]
  ]
    where
      only : (n : ℕ) → (n == 1) ≡ true → n ≡ 1
      only n h = ground (arith, h)

      pair : (n : ℕ) → (n == 1) ≡ false → 0 < n → 2 ≤ n
      pair n h l = ground (arith, h, l)
