-- ===== src/Query/Clause.antt =====
-- query/clause.go, query/simple.go and query/searcher.go: what a query says and how a searcher is set up.
use textiplex.Prelude.{ℕ, ◌+◌, Option, List, [], ◌∷◌, ◌++◌, length}
use textiplex.Prelude.Int.{ℤ}
use textiplex.Bytes.{Bytes}
use textiplex.Storage.Headers.{Float32, Token}
use textiplex.Storage.Segment.{Field, Storage}

-- `RangeCaptureMode`: which ends of a range belong to it.
pub data RangeCaptureMode : Type 0 where
  capture_none : RangeCaptureMode
  capture_left : RangeCaptureMode
  capture_right : RangeCaptureMode
  capture_both : RangeCaptureMode

pub record Range : Type 0 where
  pub capture_mode : RangeCaptureMode
  pub boost : Float32
  pub low : Bytes
  pub high : Bytes

pub record Keyword : Type 0 where
  pub boost : Float32
  pub fuzzy : ℤ
  pub value : Bytes

pub record ClauseEntry (T : Type 0) : Type 0 where
  pub field_hash : ℕ
  pub value : T

pub record Clause : Type 0 where
  pub keywords : List Keyword
  pub field_keywords : List (ClauseEntry Keyword)
  pub field_ranges : List (ClauseEntry Range)

-- `Clause.Count`
unfoldable pub count : Clause → ℕ
count c = length c.keywords + length c.field_keywords + length c.field_ranges

-- `Clause.Keyword`
unfoldable pub add_keyword : Clause → Bytes → Float32 → ℤ → Clause
add_keyword c kw boost fuzzy = record c {
  keywords = c.keywords ++ record { boost = boost; fuzzy = fuzzy; value = kw } ∷ [];
}

-- `Clause.FieldKeyword`
unfoldable pub add_field_keyword : Clause → ℕ → Bytes → Float32 → ℤ → Clause
add_field_keyword c field kw boost fuzzy = record c {
  field_keywords =
      c.field_keywords
      ++ record { field_hash = field; value = record { boost = boost; fuzzy = fuzzy; value = kw } }
        ∷ [];
}

-- `Clause.FieldRange`
unfoldable pub add_field_range : Clause → ℕ → Bytes → Bytes → RangeCaptureMode → Float32 → Clause
add_field_range c field lo hi mode boost = record c {
  field_ranges =
      c.field_ranges
      ++ record {
        field_hash = field;
        value = record { capture_mode = mode; boost = boost; low = lo; high = hi };
      }
        ∷ [];
}

-- `ClauseState`. A nil `Field` is `none`.
pub record ClauseState : Type 0 where
  pub boost : Float32
  pub field : Option Field
  pub tokens : List Token

pub record SimpleQuery : Type 0 where
  pub shoulds : Clause
  pub musts : Clause
  pub must_nots : Clause

-- The fields of `Searcher` that choose documents.
pub record Searcher : Type 0 where
  pub storage : Storage
  pub levenshtein_m : ℤ
  pub levenshtein_max_k : ℤ
