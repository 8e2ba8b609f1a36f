-- ===== src/Storage/Build/Laws.antt =====
-- What `BuildFrom` relies on: the trees of github.com/tidwall/btree, the `range` over a Go map, and
-- a storage without posting lists of a file that could not be loaded.
use textiplex.Prelude.{ℕ, ◌≡◌, ◌≢◌, ◌⊎◌, true, List, [], map, All, IsChain}
use textiplex.Storage.Segment.{Storage}
use textiplex.Storage.Build.{BTree, PostingData, Accumulators, FieldAccumulator}

-- What the library documents: a new tree has no items, and `Set` adds its item or puts it in the
-- place of an equal one.
pub record IsBTree (bt : BTree) : Type 1 where
  pub items-empty : bt.items bt.empty ≡ []
  pub items-set :
      (P : PostingData → Type 0) (t : bt.Tree) (p : PostingData)
      → All P (bt.items t)
      → P p
      → All P (bt.items (bt.set t p))

unfoldable pub keys : {A : Type 0} → List (ℕ × A) → List ℕ
keys kvs = map (λ p. p.0) kvs

unfoldable pub IsDistinct : List ℕ → Type 0
IsDistinct ks = IsChain ◌≢◌ ks

-- A `range` visits only what the map has, and no key twice.
pub record IsRange (bt : BTree) (visit : Accumulators bt → Accumulators bt) : Type 1 where
  pub all_visited :
      (P : ℕ × FieldAccumulator bt → Type 0) (accs : Accumulators bt)
      → All P accs
      → All P (visit accs)
  pub once : (accs : Accumulators bt) → IsDistinct (keys accs) → IsDistinct (keys (visit accs))

-- `BuildFrom` resets the storage, or finds no headers of posting lists in it.
abbrev pub IsFresh : Storage → Type 0
IsFresh s = (s.initialized ≡ true) ⊎ (s.posting_lists.headers ≡ [])
