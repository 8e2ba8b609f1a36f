-- ===== src/Storage/File/Endian.antt =====
-- Integers in memory: `binary.NativeEndian` of Go's standard library and the loads of the machine,
-- which the model takes as a parameter. `put w v` is the `w` bytes of `v`.
use textiplex.Prelude.{
  ℕ, suc, ◌+◌, ◌^◌, ◌<◌, ◌≡◌, ap, ◌∙◌, List, [], ◌∷◌, ◌++◌, length, take, drop, arith,
  take-append_length,
}
use textiplex.Bytes.{Bytes}

pub record Endian : Type 0 where
  pub put : ℕ → ℕ → Bytes
  pub get : Bytes → ℕ

abbrev pub IsEndian : Endian → Type 0
IsEndian e =
    ((w v : ℕ) → length (e.put w v) ≡ w) × ((w v : ℕ) → v < 256 ^ w → e.get (e.put w v) ≡ v)

module _ {ℓ} {A : Type ℓ} where
  pub drop-append :
      (xs : List A) (n : ℕ) (ys : List A) → drop (length xs + n) (xs ++ ys) ≡ drop n ys
  drop-append [] n ys = ap (λ k. drop k ys) (zero_add n)
    where
      zero_add : (n : ℕ) → 0 + n ≡ n
      zero_add n = omega arith
  drop-append (x ∷ xs) n ys =
      ap (λ k. drop k (x ∷ (xs ++ ys))) (suc_add (length xs) n) ∙ drop-append xs n ys
    where
      suc_add : (m n : ℕ) → suc m + n ≡ suc (m + n)
      suc_add m n = omega arith

  pub take-append : (xs : List A) (n : ℕ) (ys : List A) → length xs ≡ n → take n (xs ++ ys) ≡ xs
  take-append xs n ys h = ap (λ k. take k (xs ++ ys)) (eq_sym h) ∙ take-append_length xs ys
    where
      eq_sym : {m n : ℕ} → m ≡ n → n ≡ m
      eq_sym h = omega arith

  pub drop-append_eq : (xs : List A) (n : ℕ) (ys : List A) → length xs ≡ n → drop n (xs ++ ys) ≡ ys
  drop-append_eq xs n ys h = ap (λ k. drop k (xs ++ ys)) (add_zero h) ∙ drop-append xs 0 ys
    where
      add_zero : {m n : ℕ} → m ≡ n → n ≡ m + 0
      add_zero h = omega arith

module _ (e : Endian) where
  -- The integer of `w` bytes at an offset of the memory.
  unfoldable pub read_at : ℕ → ℕ → Bytes → ℕ
  read_at o w b = e.get (take w (drop o b))

  module _ (e_ok : IsEndian e) where
    pub read_at-here : (w v : ℕ) (b : Bytes) → v < 256 ^ w → read_at 0 w (e.put w v ++ b) ≡ v
    unfolding read_at
    read_at-here w v b h =
        ap (λ l. e.get l) (take-append (e.put w v) w b (e_ok.0 w v)) ∙ e_ok.1 w v h

    pub read_at-skip :
        (a : Bytes) (n o w : ℕ) (b : Bytes)
        → length a ≡ n
        → read_at (n + o) w (a ++ b) ≡ read_at o w b
    unfolding read_at
    read_at-skip a n o w b h =
        ap (λ k. e.get (take w (drop k (a ++ b)))) (add_eq h)
        ∙ ap (λ l. e.get (take w l)) (drop-append a o b)
      where
        add_eq : {m n : ℕ} → m ≡ n → n + o ≡ m + o
        add_eq h = omega arith
