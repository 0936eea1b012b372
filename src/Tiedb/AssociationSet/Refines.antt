-- ===== src/Tiedb/AssociationSet/Refines.antt =====
-- The three tiers behave as one finite map.
use tie.Prelude.{
  ◌≤◌, ◌≡◌, refl, Bool, Option, none, some, List, [], arith, if◌then◌else◌, nat_eq, ◌==◌, ltb,
  length, inl, inr, Option-cases, Bool-cases,
}
use tie.Prelude.GoMap
use tie.Prelude.Int.{ℤ}
use tie.Tiedb.AssociationSet.{
  UniqueAssociation, association_eq, association_beq_iff, AssocEntry, AssocShardSet, AssociationSet,
  shard_for, promote_into, shard_threshold, new_association_set, get, put, delete, index_of,
  promote, put_small, append_entry,
}
use tie.Tiedb.AssociationSet.Slices.{
  overwrite-eq-put, append-eq-put, index_of-none, get-swap_remove, swap_remove-Distinct,
  length-swap_remove-le,
}
use tie.Tiedb.AssociationSet.Shards.{
  IsSharded, get-shard_put, get-shard_delete, shard_put-IsSharded, shard_delete-IsSharded,
  empty-IsSharded, promote_into-IsSharded, get-promote_into,
}

abbrev pub IsSmall : Option (List AssocEntry) → Type 0
IsSmall none = Unit
IsSmall (some es) = GoMap.Distinct es × (length es ≤ shard_threshold)

abbrev pub IsLarge : Option AssocShardSet → Type 0
IsLarge none = Unit
IsLarge (some sh) = IsSharded sh

-- What every reachable set satisfies: one entry for a key in the slice, which is at most as long as
-- the threshold, and each key in its own shard.
pub record IsValid (s : AssociationSet) : Type 0 where
  pub slice : IsSmall s.small
  pub sharded : IsLarge s.shards

pub new_association_set-IsValid : IsValid new_association_set
unfolding new_association_set
new_association_set-IsValid = record { slice = tt; sharded = tt }

pub get-new_association_set : (k : UniqueAssociation) → get new_association_set k ≡ none
unfolding get new_association_set
get-new_association_set k = refl

promoted-get :
    (es : List AssocEntry) (k : UniqueAssociation)
    → GoMap.Distinct es
    → GoMap.get (promote_into (λ _. []) es (shard_for k)) k ≡ GoMap.get es k
unfolding GoMap.get
promoted-get es k d = ground (arith, get-promote_into es (λ _. []) k)

-- A set by its fields, which the proofs split on.
abbrev pub tiers :
    UniqueAssociation → ℤ → Bool → Option (List AssocEntry) → Option AssocShardSet → AssociationSet
tiers k v b es sh = record {
  inline_key = k;
  inline_val = v;
  has_inline = b;
  small = es;
  shards = sh;
}

module _ (ik : UniqueAssociation) (iv : ℤ) (has : Bool) (k : UniqueAssociation) (v : ℤ) where
  put_inline-get :
      (j : UniqueAssociation)
      → get (put (tiers ik iv has none none) k v) j
        ≡ (if k == j then some v else get (tiers ik iv has none none) j)
  unfolding get put GoMap.get
  put_inline-get j =
      ground (arith, association_beq_iff k j, association_beq_iff ik k, association_beq_iff ik j)

  put_small-get :
      (es : List AssocEntry) (j : UniqueAssociation)
      → GoMap.Distinct es
      → get (put (tiers ik iv has (some es) none) k v) j
        ≡ (if k == j then some v else GoMap.get es j)
  unfolding get put promote
  put_small-get es j d = ground (
    arith,
    overwrite-eq-put es k v,
    append-eq-put es k v,
    GoMap.get-put es k v j,
    GoMap.put-Distinct es k v,
    promoted-get (GoMap.put es k v) j,
  )

  put-tiers-get :
      (es : Option (List AssocEntry)) (sh : Option AssocShardSet) (j : UniqueAssociation)
      → IsSmall es
      → get (put (tiers ik iv has es sh) k v) j
        ≡ (if k == j then some v else get (tiers ik iv has es sh) j)
  put-tiers-get none none j h = put_inline-get j
  put-tiers-get (some es) none j h = unfold get in put_small-get es j h.0
  put-tiers-get es (some sh) j h =
      unfold get put in
      ground (arith, get-shard_put sh k v (shard_for j) j, association_beq_iff k j)

  put_small-present :
      (es : List AssocEntry) {w : ℤ}
      → GoMap.get es k ≡ some w
      → put (tiers ik iv has (some es) none) k v ≡ tiers ik iv has (some (GoMap.put es k v)) none
  unfolding put
  put_small-present es h = rw (overwrite-eq-put es k v, h, put_small)

  put_small-absent :
      (es : List AssocEntry)
      → GoMap.get es k ≡ none
      → put (tiers ik iv has (some es) none) k v
        ≡ append_entry (tiers ik iv has (some es) none) (GoMap.put es k v)
  unfolding put
  put_small-absent es h = rw (overwrite-eq-put es k v, h, put_small, append-eq-put es k v h)

  append_entry-IsValid :
      (es fs : List AssocEntry)
      → GoMap.Distinct es
      → IsValid (append_entry (tiers ik iv has (some fs) none) es)
  unfolding append_entry promote
  append_entry-IsValid es fs d = elim (Bool-cases (ltb shard_threshold (length es))) [
    | inl long ↦
        rw (long, append_entry)
          (record { slice = tt; sharded = promote_into-IsSharded es (λ _. []) empty-IsSharded })
    | inr short ↦ rw (short, append_entry) (record { slice = (d, ground arith); sharded = tt })
  ]

  put_small-IsValid :
      (es : List AssocEntry)
      → GoMap.Distinct es
      → length es ≤ shard_threshold
      → IsValid (put (tiers ik iv has (some es) none) k v)
  put_small-IsValid es d fits = elim (Option-cases (GoMap.get es k)) [
    | inl absent ↦
        rw (put_small-absent es absent) (append_entry-IsValid _ es (GoMap.put-Distinct es k v d))
    | inr (w, present) ↦ rw (put_small-present es present) (record {
      slice = (GoMap.put-Distinct es k v d, ground (arith, GoMap.length-put es k v));
      sharded = tt;
    })
  ]

  put_inline-IsValid : IsValid (put (tiers ik iv has none none) k v)
  unfolding put GoMap.get
  put_inline-IsValid = ground (arith, association_beq_iff ik k, association_beq_iff k ik)

  put-tiers-IsValid :
      (es : Option (List AssocEntry)) (sh : Option AssocShardSet)
      → IsSmall es
      → IsLarge sh
      → IsValid (put (tiers ik iv has es sh) k v)
  put-tiers-IsValid none none h g = put_inline-IsValid
  put-tiers-IsValid (some es) none h g = put_small-IsValid es h.0 h.1
  put-tiers-IsValid es (some sh) h g =
      unfold put in record { slice = h; sharded = shard_put-IsSharded sh k v g }

-- On a valid set, a write reads back and no other key changes, in every tier and across the
-- promotions.
pub get-put :
    (s : AssociationSet) (k : UniqueAssociation) (v : ℤ) (j : UniqueAssociation)
    → IsValid s
    → get (put s k v) j ≡ (if k == j then some v else get s j)
get-put s k v j h =
    put-tiers-get s.inline_key s.inline_val s.has_inline k v s.small s.shards j h.slice

-- A write to a valid set leaves a valid set: the slice holds no key twice and no more than the
-- threshold, and every key is in its own shard.
pub put-IsValid :
    (s : AssociationSet) (k : UniqueAssociation) (v : ℤ) → IsValid s → IsValid (put s k v)
put-IsValid s k v h =
    put-tiers-IsValid s.inline_key s.inline_val s.has_inline k v s.small s.shards h.slice h.sharded

module _ (ik : UniqueAssociation) (iv : ℤ) (has : Bool) (k : UniqueAssociation) where
  delete_inline-get :
      (j : UniqueAssociation)
      → get (delete (tiers ik iv has none none) k) j
        ≡ (if k == j then none else get (tiers ik iv has none none) j)
  unfolding get delete
  delete_inline-get j =
      ground (arith, association_beq_iff k j, association_beq_iff ik k, association_beq_iff ik j)

  delete_small-get :
      (es : List AssocEntry) (j : UniqueAssociation)
      → GoMap.Distinct es
      → get (delete (tiers ik iv has (some es) none) k) j
        ≡ (if k == j then none else GoMap.get es j)
  delete_small-get es j d = elim (Option-cases (index_of es k)) [
    | inl missing ↦
        unfold get delete in
        ground (arith, missing, index_of-none es k missing, association_beq_iff k j)
    | inr (i, hit) ↦ unfold get delete in ground (arith, hit, get-swap_remove es k i j d hit)
  ]

  delete-tiers-get :
      (es : Option (List AssocEntry)) (sh : Option AssocShardSet) (j : UniqueAssociation)
      → IsSmall es
      → get (delete (tiers ik iv has es sh) k) j
        ≡ (if k == j then none else get (tiers ik iv has es sh) j)
  delete-tiers-get none none j h = delete_inline-get j
  delete-tiers-get (some es) none j h = unfold get in delete_small-get es j h.0
  delete-tiers-get es (some sh) j h =
      unfold get delete in
      ground (arith, get-shard_delete sh k (shard_for j) j, association_beq_iff k j)

  delete-tiers-IsValid :
      (es : Option (List AssocEntry)) (sh : Option AssocShardSet)
      → IsSmall es
      → IsLarge sh
      → IsValid (delete (tiers ik iv has es sh) k)
  delete-tiers-IsValid none none h g = unfold delete in ground arith
  delete-tiers-IsValid (some es) none h g = elim (Option-cases (index_of es k)) [
    | inl missing ↦ unfold delete in ground (arith, missing)
    | inr (i, hit) ↦
        unfold delete in
        ground (arith, hit, swap_remove-Distinct es k i h.0 hit, length-swap_remove-le es i)
  ]
  delete-tiers-IsValid es (some sh) h g =
      unfold delete in record { slice = h; sharded = shard_delete-IsSharded sh k g }

-- On a valid set, a deleted key is gone and no other key changes, in every tier.
pub get-delete :
    (s : AssociationSet) (k j : UniqueAssociation)
    → IsValid s
    → get (delete s k) j ≡ (if k == j then none else get s j)
get-delete s k j h =
    delete-tiers-get s.inline_key s.inline_val s.has_inline k s.small s.shards j h.slice

-- A deletion from a valid set leaves a valid set.
pub delete-IsValid : (s : AssociationSet) (k : UniqueAssociation) → IsValid s → IsValid (delete s k)
delete-IsValid s k h =
    delete-tiers-IsValid s.inline_key s.inline_val s.has_inline k s.small s.shards h.slice h.sharded
