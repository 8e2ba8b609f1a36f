-- ===== src/Storage/Tokens.antt =====
-- `Tokens` of storage/storage.go: the table of a field's tokens, searched by value.
pub mod Lookup
pub mod Iterate
use textiplex.Prelude.{
  ℕ, ◌+◌, ◌-◌, ◌≤◌, ◌<◌, ◌≡◌, Bool, true, false, Option, none, some, List, [], ◌∷◌, ltb, leb, ◌==◌,
  length, get_elem?, slice, IsChain, if◌then◌else◌, ◌>>=◌, not, ◌&&◌,
}
use textiplex.Bytes.{Bytes, compare_bytes, is_lt, is_eq, ◌≺◌}
use textiplex.Search.{binary_search}
use textiplex.Storage.Headers.{Token, bytes}

abbrev pub Tokens : Type 0
Tokens = List Token

abbrev pub value_below : Bytes → Token → Bool
value_below b t = is_lt (compare_bytes (bytes t.value) b)

abbrev pub value_is : Bytes → Token → Bool
value_is b t = is_eq (compare_bytes (bytes t.value) b)

unfoldable pub binary_search_bytes : Tokens → Bytes → Option (ℕ × Bool)
binary_search_bytes s b = binary_search (value_below b) (value_is b) s

-- `strings.Compare` orders the bytes of two strings.
unfoldable pub binary_search_string : Tokens → Bytes → Option (ℕ × Bool)
binary_search_string s ss = binary_search (value_below ss) (value_is ss) s

-- A result `some none` is `nil, false`.
abbrev pointer_at : Tokens → ℕ → Option (Option Token)
pointer_at s idx = get_elem? s idx >>= λ t. some (some t)

unfoldable pub get_string : Tokens → Bytes → Option (Option Token)
get_string s ss =
    binary_search_string s ss >>= λ (idx, found). if not found then some none else pointer_at s idx

unfoldable pub get_bytes : Tokens → Bytes → Option (Option Token)
get_bytes s b =
    binary_search_bytes s b >>= λ (idx, found). if not found then some none else pointer_at s idx

unfoldable pub get_bytes_or_near : Tokens → Bytes → Option (Option Token)
get_bytes_or_near s b = binary_search_bytes s b >>= λ (idx, found).
    if not found && leb (length s) idx then some none else pointer_at s idx

-- One end of the range: the index, or `none` where the sequence is empty.
abbrev pub bound : Tokens → Bytes → Option (Option ℕ)
bound s b = binary_search_bytes s b >>= λ (idx, found).
    if not found && leb (length s) idx then some none else some (some idx)

abbrev start_bound : Tokens → Option Bytes → Option (Option ℕ)
start_bound s none = some (some 0)
start_bound s (some lo) = bound s lo

abbrev end_bound : Tokens → Option Bytes → Option (Option ℕ)
end_bound s none = some (some (length s - 1))
end_bound s (some hi) = bound s hi

-- `for i := startIndex; i <= endIndex; i++`
abbrev pub between : Tokens → Option ℕ → Option ℕ → Option (List Token)
between s none _ = some []
between s (some start) none = some []
between s (some start) (some end) = if leb start end then slice s start (end + 1) else some []

-- The tokens that a caller sees who ranges over the whole sequence. A `nil` bound is `none`. The
-- sequence of an empty table is `nil`, and to range over that panics.
unfoldable pub iter_bytes : Tokens → Option Bytes → Option Bytes → Option (List Token)
iter_bytes [] lo hi = none
iter_bytes (t ∷ ts) lo hi =
    start_bound (t ∷ ts) lo >>= λ start. end_bound (t ∷ ts) hi >>= λ end. between (t ∷ ts) start end

-- The order in which segments store the tokens of a field: strictly ascending values.
abbrev pub Precedes : Token → Token → Type 0
Precedes a b = bytes a.value ≺ bytes b.value

abbrev pub IsSorted : Tokens → Type 0
IsSorted = IsChain Precedes
