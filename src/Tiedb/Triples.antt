-- ===== src/Tiedb/Triples.antt =====
-- tiedb/datastructures.go: triples as stored, as text, and the rows of a query's answer.
use tie.Prelude.{ℕ, List, list_eq, nat_eq}
use tie.Prelude.Int.{ℤ, negsuc}

-- A Go string: its bytes.
abbrev pub Bytes : Type 0
Bytes = List ℕ

-- The level of an entry that lives in the whole-value hash store: -1.
abbrev pub hash_level : ℤ
hash_level = negsuc 0

pub record UniqueValue : Type 0 where
  pub parent_id : ℕ
  pub value : Bytes

pub record Triple : Type 0 where
  pub level : ℤ
  pub key : ℕ
  pub value1_level : ℤ
  pub value1 : ℕ
  pub value2_level : ℤ
  pub value2 : ℕ

pub record StringTriple : Type 0 where
  pub key : Bytes
  pub value1 : Bytes
  pub value2 : Bytes

pub record Row : Type 0 where
  pub key : Bytes
  pub attributes : List (Bytes × List Bytes)
