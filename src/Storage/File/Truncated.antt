-- ===== src/Storage/File/Truncated.antt =====
-- Files with more bytes than a segment, and files with fewer.
use textiplex.Prelude.{
  ℕ, zero, suc, ◌-◌, ◌<◌, ◌≤◌, ◌≡◌, refl, sym, ap, ◌∙◌, Bool, true, false, List, [], ◌∷◌, ◌++◌,
  length, drop, take, ltb, ◌==◌, arith, length-append, length-drop, length-take, Bool-cases, inl,
  inr,
}
use textiplex.Bytes.{Bytes}
use textiplex.Storage.Segment.{Storage}
use textiplex.Storage.File.Endian.{Endian, IsEndian}
use textiplex.Storage.File.Records.{decode_header}
use textiplex.Storage.File.Save.{save_to}
use textiplex.Storage.File.Load.{
  >>=-eq-loaded, Outcome, loaded, failed, panicked, Loading, load, load_body, zero_storage,
}
use textiplex.Storage.File.Storable.{IsStorable}
use textiplex.Storage.File.Extend.{drop-append_front, decode_header-IsLocal}
use textiplex.Storage.File.Stages.{load_body-IsExtendable}
use textiplex.Storage.File.Roundtrip.{load-save_to, reloaded, body}

loaded_storage : Storage → Outcome Storage → Storage
loaded_storage st (loaded a) = a
loaded_storage st (failed err s) = st
loaded_storage st panicked = st

loaded-injective : (a b : Storage) → ◌≡◌ {A = Outcome Storage} (loaded a) (loaded b) → a ≡ b
unfolding loaded_storage
loaded-injective a b h = ap (loaded_storage a) h

take-drop : {A : Type 0} (n : ℕ) (xs : List A) → take n xs ++ drop n xs ≡ xs
take-drop zero xs = refl
take-drop (suc n) [] = refl
take-drop (suc n) (x ∷ xs) = ap (λ l. x ∷ l) (take-drop n xs)

not_both : (b : Bool) → false ≡ b → b ≡ true → ⊥
not_both true h k = ground arith
not_both false h k = ground arith

longer : (b extra : Bytes) → ltb (length b) 56 ≡ false → ltb (length (b ++ extra)) 56 ≡ false
longer b extra h = ground (arith, length-append b extra)

not_empty : (b extra : Bytes) → (length b == 0) ≡ false → (length (b ++ extra) == 0) ≡ false
not_empty b extra h = ground (arith, length-append b extra)

at_least : (b : Bytes) → ltb (length b) 56 ≡ false → 56 ≤ length b
at_least b h = ground arith

exactly : (b : Bytes) → ltb (length b) 56 ≡ false → (length (drop 56 b) == 0) ≡ true → length b ≡ 56
exactly b h k = ground (arith, length-drop 56 b)

same_size :
    (b extra rest : Bytes) → length (b ++ extra) - length (rest ++ extra) ≡ length b - length rest
same_size b extra rest = omega (arith, length-append b extra, length-append rest extra)

-- What an initialized result says of the run.
abbrev IsRun : Endian → Storage → Bytes → Storage → Loading → Type 0
IsRun e s0 b s l =
    (ltb (length b) 56 ≡ false)
    × ((length (drop 56 b) == 0) ≡ false)
    × (load_body e (decode_header e b) (record {
      storage = record s0 { initialized = false; version = (decode_header e b).version };
      rest = drop 56 b;
    })
        ≡ loaded l)
    × (record l.storage { size = length b - length l.rest; initialized = true } ≡ s)

module _ (e : Endian) where
  load-IsRun :
      (s0 s : Storage) (b : Bytes)
      → load e s0 b ≡ loaded s
      → s.initialized ≡ true
      → (l : Loading) × IsRun e s0 b s l
  unfolding load
  load-IsRun s0 s b ok init = elim (Bool-cases (ltb (length b) 56)) [
    | inl full ↦ absurd (ground (arith, full))
    | inr room ↦ elim (Bool-cases (length (drop 56 b) == 0)) [
      | inl nothing ↦ absurd (
          not_both s.initialized
            (ap (λ (t : Storage). t.initialized) (loaded-injective _ _ (rw (room, nothing) at ok)))
            init)
      | inr something ↦
          let (l, run, made) =
            >>=-eq-loaded (load_body e (decode_header e b) _) _ (rw (room, something) at ok) in
          (l, (room, something, run, loaded-injective _ _ made))
    ]
  ]

  -- When `Load` of some bytes returns an initialized storage, `Load` of the same bytes with
  -- more behind them returns the same storage.
  pub load-append :
      (s0 s : Storage) (b extra : Bytes)
      → load e s0 b ≡ loaded s
      → s.initialized ≡ true
      → load e s0 (b ++ extra) ≡ loaded s
  unfolding load
  load-append s0 s b extra ok init =
      let (l, (room, something, run, made)) = load-IsRun s0 s b ok init in
      rw
        (
          longer b extra room,
          drop-append_front 56 b extra (at_least b room),
          not_empty (drop 56 b) extra something,
          decode_header-IsLocal e b extra (at_least b room),
          load_body-IsExtendable e (decode_header e b) extra _ l run,
          same_size b extra l.rest,
        )
        (ap (λ t. loaded t) made)

  size-lt :
      (s0 s : Storage) (b : Bytes)
      → load e s0 b ≡ loaded s
      → s.initialized ≡ true
      → s.size ≤ length b
  size-lt s0 s b ok init =
      let (l, (_, _, _, made)) = load-IsRun s0 s b ok init in rw (← made) (omega arith)

  -- A file that loads without becoming initialized is a header and no more.
  only_header :
      (s0 s : Storage) (b : Bytes) → load e s0 b ≡ loaded s → s.initialized ≡ false → length b ≡ 56
  unfolding load
  only_header s0 s b ok not_init = elim (Bool-cases (ltb (length b) 56)) [
    | inl full ↦ absurd (ground (arith, full))
    | inr room ↦ elim (Bool-cases (length (drop 56 b) == 0)) [
      | inl nothing ↦ exactly b room nothing
      | inr something ↦
          let (l, run, made) =
            >>=-eq-loaded (load_body e (decode_header e b) _) _ (rw (room, something) at ok) in
          absurd (
            not_both s.initialized (sym not_init)
              (sym (ap (λ (t : Storage). t.initialized) (loaded-injective _ _ made))))
    ]
  ]

  reloaded_size :
      (s : Storage) → (reloaded e s).initialized ≡ true → (reloaded e s).size ≡ length (save_to e s)
  reloaded_size s init = elim (Bool-cases (length (body e s) == 0)) [
    | inl nothing ↦ absurd (ground (arith, nothing))
    | inr something ↦ rw something refl
  ]

  -- For a storage that fits the file and a file that was cut to fewer bytes than `SaveTo`
  -- wrote: if `Load` returns without an error, the cut is exactly behind the header and the
  -- storage is not initialized.
  pub load-take-save_to :
      IsEndian e
      → (s t : Storage) (n : ℕ) → IsStorable s
      → n < length (save_to e s)
      → load e zero_storage (take n (save_to e s)) ≡ loaded t
      → (n ≡ 56) × (t.initialized ≡ false)
  load-take-save_to e_ok s t n ok small run = elim (Bool-cases t.initialized) [
    | inl init ↦ absurd (never init)
    | inr not_init ↦ (
      omega (
        arith,
        length-take n (save_to e s),
        only_header zero_storage t (take n (save_to e s)) run not_init,
      ),
      not_init,
    )
  ]
    where
      same : t.initialized ≡ true → reloaded e s ≡ t
      same init = loaded-injective _ _ (
          sym (load-save_to e e_ok s ok)
          ∙ ap (λ b. load e zero_storage b) (sym (take-drop n (save_to e s)))
          ∙ load-append zero_storage t (take n (save_to e s)) (drop n (save_to e s)) run init)

      never : t.initialized ≡ true → ⊥
      never init = omega (
        arith,
        length-take n (save_to e s),
        size-lt zero_storage t (take n (save_to e s)) run init,
        ap (λ (u : Storage). u.size) (same init),
        reloaded_size s (ap (λ (u : Storage). u.initialized) (same init) ∙ init),
      )
