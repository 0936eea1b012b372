-- ===== src/Tiedb/LockedTree/Refines.antt =====
-- The sharded map behaves as one map.
use tie.Prelude.{ℕ, ◌≡◌, refl, none, some, arith, if◌then◌else◌, Eq, ◌==◌, Option-cases, inl, inr}
use tie.Prelude.GoMap
use tie.Tiedb.LockedTree.{LockedTree, new_locked_tree, shard_for, get, put, get_or_put, delete}

module _ {K V : Type 0} ⦃e : Eq K⦄ where
  pub get-new_locked_tree : (h : K → ℕ) (k : K) → get {V = V} (new_locked_tree h) k ≡ none
  unfolding get new_locked_tree GoMap.get
  get-new_locked_tree h k = refl

  -- A write reads back, and no other key changes, whichever shard they are in.
  pub get-put :
      (t : LockedTree K V) (k : K) (v : V) (j : K)
      → get (put t k v) j ≡ (if k == j then some v else get t j)
  unfolding get put
  get-put t k v j = ground (arith, GoMap.get-put (t.shards (shard_for t k)) k v j, e.beq_iff k j)

  pub get-delete :
      (t : LockedTree K V) (k j : K) → get (delete t k) j ≡ (if k == j then none else get t j)
  unfolding get delete
  get-delete t k j = ground (arith, GoMap.get-delete (t.shards (shard_for t k)) k j, e.beq_iff k j)

  pub hash-put : (t : LockedTree K V) (k : K) (v : V) → (put t k v).hash ≡ t.hash
  unfolding put
  hash-put t k v = refl

  -- The value that `GetOrPut` answers with is under the key afterwards, and no other key changes.
  pub get-get_or_put :
      (t : LockedTree K V) (k : K) (made : V) (j : K)
      → get (get_or_put t k made).1 j ≡ (if k == j then some (get_or_put t k made).0 else get t j)
  get-get_or_put t k made j = elim (Option-cases (get t k)) [
    | inl absent ↦ unfold get_or_put in rw (absent, get_or_put) (get-put t k made j)
    | inr (v, present) ↦
        unfold get_or_put in rw (present, get_or_put) (ground (arith, e.beq_iff k j, present))
  ]
