-- ===== src/Tiedb/LockedTree.antt =====
-- tiedb/lockedtree.go: the sharded map of the outer indexes. The locks of the shards are not
-- modelled: a sequence of calls is one that the locks allow.
pub mod Refines
pub mod Hashes
use tie.Prelude.{
  ℕ, zero, suc, ◌+◌, ◌%◌, Bool, true, false, Option, none, some, List, [], ◌++◌, if◌then◌else◌,
  nat_beq, Eq, length,
}
use tie.Prelude.GoMap

abbrev pub locked_tree_shards : ℕ
locked_tree_shards = 16

-- The maps of the shards, by their index; an index is always below `locked_tree_shards`.
pub record LockedTree (K V : Type 0) : Type 0 where
  pub shards : ℕ → List (K × V)
  pub hash : K → ℕ

module _ {K V : Type 0} where
  unfoldable pub new_locked_tree : (K → ℕ) → LockedTree K V
  new_locked_tree h = record { shards = λ i. []; hash = h }

  -- `t.hash(key) & (lockedTreeShards - 1)` is the remainder by the power of two.
  unfoldable pub shard_for : LockedTree K V → K → ℕ
  shard_for t key = t.hash key % locked_tree_shards

  unfoldable pub write_shard : LockedTree K V → ℕ → List (K × V) → LockedTree K V
  write_shard t n m = record t { shards = λ i. if nat_beq n i then m else t.shards i }

  -- The first `n` shards, in the order of the loop over them.
  unfoldable pub shard_entries : LockedTree K V → ℕ → List (K × V)
  shard_entries t zero = []
  shard_entries t (suc n) = shard_entries t n ++ t.shards n

  -- What `ForEach` calls its visitor with, in order.
  unfoldable pub entries : LockedTree K V → List (K × V)
  entries t = shard_entries t locked_tree_shards

  unfoldable pub shard_sizes : LockedTree K V → ℕ → ℕ
  shard_sizes t zero = 0
  shard_sizes t (suc n) = shard_sizes t n + length (t.shards n)

  unfoldable pub size : LockedTree K V → ℕ
  size t = shard_sizes t locked_tree_shards

module _ {K V : Type 0} ⦃e : Eq K⦄ where
  unfoldable pub get : LockedTree K V → K → Option V
  unfolding shard_for
  get t key = GoMap.get (t.shards (shard_for t key)) key

  unfoldable pub put : LockedTree K V → K → V → LockedTree K V
  unfolding shard_for write_shard
  put t key value =
      write_shard t (shard_for t key) (GoMap.put (t.shards (shard_for t key)) key value)

  -- The value that is under the key afterwards, and the tree.
  unfoldable pub get_or_put : LockedTree K V → K → V → V × LockedTree K V
  unfolding get put
  get_or_put t key made = elim (get t key) [ some v ↦ (v, t) | none ↦ (made, put t key made) ]

  unfoldable pub delete : LockedTree K V → K → LockedTree K V
  unfolding shard_for write_shard
  delete t key = write_shard t (shard_for t key) (GoMap.delete (t.shards (shard_for t key)) key)
