-- ===== src/Query/Range.antt =====
-- The tokens of a range, from the part of `Iter` and `IterCond` of query/clause.go that walks a
-- field's sorted tokens between the two ends.
use textiplex.Prelude.{
  ◌+◌, ◌-◌, ◌≤◌, ◌<◌, ◌≡◌, refl, ap, Bool, true, false, not, ◌&&◌, ◌||◌, Option, some, List, [],
  ◌∷◌, length, get_elem?, if◌then◌else◌, ◌>>=◌, take, drop, keep, All, leb, Bool-cases, inl, inr,
  arith, Ordering, All-map,
}
use textiplex.Bytes.{Bytes, compare_bytes, is_eq}
use textiplex.Search.Partition.{rank, rank-le}
use textiplex.Search.Chain.{later_not_less, later_not_equal}
use textiplex.Storage.Headers.{Token, bytes}
use textiplex.Storage.Tokens.{Tokens, iter_bytes, value_below, value_is, IsSorted, Precedes}
use textiplex.Storage.Tokens.Lookup.{below_down, below_apart, below_above}
use textiplex.Storage.Tokens.Iterate.{iter_bytes-eq-take}
use textiplex.Query.Clause.{RangeCaptureMode, capture_none, capture_left, capture_right, Range}

-- An empty end stands for the value of the first or the last token.
abbrev value_or : Bytes → Option Token → Option Bytes
value_or [] t = t >>= λ t. some (bytes t.value)
value_or (b ∷ bs) t = some (b ∷ bs)

abbrev is_gt : Ordering → Bool
is_gt Ordering.gt = true
is_gt _ = false

abbrev without_low : RangeCaptureMode → Bool
without_low capture_right = true
without_low capture_none = true
without_low _ = false

abbrev without_high : RangeCaptureMode → Bool
without_high capture_left = true
without_high capture_none = true
without_high _ = false

-- The body of the `range` loop. `first` is the flag of the Go code, which the first round sets.
unfoldable pub scan : RangeCaptureMode → Bytes → Bytes → Bool → List Token → List Token
scan mode lo hi first [] = []
scan mode lo hi first (t ∷ ts) =
    let rest = scan mode lo hi true ts in
    if not first && is_eq (compare_bytes (bytes t.value) lo) && without_low mode
    then rest
    else (if is_gt (compare_bytes (bytes t.value) hi)
          || is_eq (compare_bytes (bytes t.value) hi) && without_high mode
        then []
        else t ∷ rest)

unfoldable pub range_tokens : Tokens → Range → Option (List Token)
unfolding scan
range_tokens s r = value_or r.low (get_elem? s 0) >>= λ lo.
    value_or r.high (get_elem? s (length s - 1)) >>= λ hi.
    iter_bytes s (some lo) (some hi) >>= λ seq. some (scan r.capture_mode lo hi false seq)

-- What the mode promises of a token between the ends.
abbrev pub in_range : RangeCaptureMode → Bytes → Bytes → Token → Bool
in_range mode lo hi t =
    not (value_below lo t)
    && not (value_is lo t && without_low mode)
    && (value_below hi t || value_is hi t && not (without_high mode))

-- Past a token that is not below a value, nothing is below it or equal to it.
pub below_after :
    (b : Bytes) (x y : Token)
    → Precedes x y
    → value_below b x ≡ false
    → (value_below b y ≡ false) × (value_is b y ≡ false)
below_after b x y r h = (
  later_not_less (below_down b) x y h r,
  later_not_equal (below_down b) (below_apart b) (below_above b) x y h r,
)

below_rest :
    (b : Bytes) (x : Token) (s : Tokens)
    → All (Precedes x) s
    → value_below b x ≡ false
    → All (λ t. value_below b t ≡ false) s × All (λ t. value_is b t ≡ false) s
below_rest b x s a h =
    (All-map s (λ y r. (below_after b x y r h).0) a, All-map s (λ y r. (below_after b x y r h).1) a)

module _ (mode : RangeCaptureMode) (lo hi : Bytes) where
  none_in_range :
      (s : Tokens)
      → All (λ t. value_below hi t ≡ false) s
      → All (λ t. value_is hi t ≡ false) s
      → keep (in_range mode lo hi) s ≡ []
  none_in_range [] b e = refl
  none_in_range (y ∷ s) b e = rw (b.0, e.0) (ground (arith, none_in_range s b.1 e.1))

  -- Once the low end is passed, the loop stops at the high end.
  scan_rest :
      (s : Tokens)
      → IsSorted s
      → All (λ t. value_below lo t ≡ false) s
      → All (λ t. value_is lo t ≡ false) s
      → scan mode lo hi true (take (rank (value_below hi) s + 1) s) ≡ keep (in_range mode lo hi) s
  unfolding scan
  scan_rest [] c l e = refl
  scan_rest (x ∷ s) c l e = elim (Bool-cases (value_below hi x)) [
    | inl h ↦ ground (arith, scan_rest s c.1 l.1 e.1)
    | inr h ↦
        (let after = below_rest hi x s c.0 h in ground (arith, none_in_range s after.0 after.1))
  ]

  -- From the first token that is not below the low end.
  scan_from :
      (x : Token) (s : Tokens)
      → IsSorted (x ∷ s)
      → value_below lo x ≡ false
      → scan mode lo hi false (take (rank (value_below hi) (x ∷ s) + 1) (x ∷ s))
        ≡ keep (in_range mode lo hi) (x ∷ s)
  unfolding scan
  scan_from x s c l =
      let low = below_rest lo x s c.0 l in
      elim (Bool-cases (value_below hi x)) [
        | inl h ↦ ground (arith, scan_rest s c.1 low.0 low.1)
        | inr h ↦
            (let after = below_rest hi x s c.0 h in ground (arith, none_in_range s after.0 after.1))
      ]

  scan_between :
      (s : Tokens)
      → IsSorted s
      → rank (value_below lo) s ≤ rank (value_below hi) s
      → scan mode lo hi false (
          take
            (rank (value_below hi) s + 1 - rank (value_below lo) s)
            (drop (rank (value_below lo) s) s))
        ≡ keep (in_range mode lo hi) s
  unfolding scan
  scan_between [] c h = refl
  scan_between (x ∷ s) c h = elim (Bool-cases (value_below lo x)) [
    | inl l ↦ elim (Bool-cases (value_below hi x)) [
      | inl k ↦ rw (l, k) (ground (arith, scan_between s c.1))
      | inr k ↦ ground arith
    ]
    | inr l ↦ ground (arith, scan_from x s c l)
  ]

  -- Ends in the wrong order hold nothing.
  crossed :
      (s : Tokens)
      → IsSorted s
      → rank (value_below hi) s < rank (value_below lo) s
      → keep (in_range mode lo hi) s ≡ []
  crossed [] c h = refl
  crossed (x ∷ s) c h = elim (Bool-cases (value_below hi x)) [
    | inl k ↦ ground (arith, crossed s c.1)
    | inr k ↦
        (let after = below_rest hi x s c.0 k in ground (arith, none_in_range s after.0 after.1))
  ]

-- On a table of tokens that is strictly ascending and not empty, with both ends resolved: a
-- range clause reaches the tokens that its capture mode puts between the ends, in order, but
-- none at all when every token of the table is below the high end.
pub range_tokens-eq-keep :
    (s : Tokens) (r : Range) (lo hi : Bytes)
    → IsSorted s
    → 0 < length s
    → value_or r.low (get_elem? s 0) ≡ some lo
    → value_or r.high (get_elem? s (length s - 1)) ≡ some hi
    → range_tokens s r
      ≡ some (
          if leb (length s) (rank (value_below hi) s)
          then []
          else keep (in_range r.capture_mode lo hi) s)
unfolding range_tokens scan
range_tokens-eq-keep s r lo hi c ne pl ph =
    rw (pl, ph, iter_bytes-eq-take lo hi s c ne)
      (ap some (elim (Bool-cases (leb (rank (value_below lo) s) (rank (value_below hi) s))) [
        | inl e ↦
            ground (arith, e, rank-le (value_below hi) s, scan_between r.capture_mode lo hi s c)
        | inr e ↦
            (let none_left : rank (value_below hi) s + 1 - rank (value_below lo) s ≡ 0 =
                ground (arith, e) in
              rw none_left (ground (arith, e, crossed r.capture_mode lo hi s c)))
      ]))
