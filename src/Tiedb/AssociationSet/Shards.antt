-- ===== src/Tiedb/AssociationSet/Shards.antt =====
-- The sharded maps of the large tier, and the promotion of a slice into them.
use tie.Prelude.{
  ℕ, zero, suc, ◌≡◌, ◌≢◌, refl, none, some, List, [], ◌∷◌, arith, if◌then◌else◌, nat_eq, ◌==◌,
  is_some, ltb, nat_beq,
}
use tie.Prelude.GoMap
use tie.Prelude.Int.{ℤ}
use tie.Tiedb.AssociationSet.{
  UniqueAssociation, association_eq, association_beq_iff, AssocEntry, AssocShardSet, shard_for,
  shard_put, shard_delete, promote_into, shard_entries,
}

-- Each map has distinct keys, and a key stands in its own shard only.
pub record IsSharded (sh : AssocShardSet) : Type 0 where
  pub distinct : (i : ℕ) → GoMap.Distinct (sh i)
  pub home : (i : ℕ) (k : UniqueAssociation) → shard_for k ≢ i → GoMap.get (sh i) k ≡ none

pub empty-IsSharded : IsSharded (λ _. [])
unfolding GoMap.get
empty-IsSharded = record { distinct = λ i. tt; home = λ i k h. refl }

pub get-shard_put :
    (sh : AssocShardSet) (k : UniqueAssociation) (v : ℤ) (i : ℕ) (j : UniqueAssociation)
    → GoMap.get (shard_put sh k v i) j ≡ (
        if nat_beq (shard_for k) i
        then (if k == j then some v else GoMap.get (sh i) j)
        else GoMap.get (sh i) j)
unfolding shard_put
get-shard_put sh k v i j = ground (arith, GoMap.get-put (sh i) k v j)

pub get-shard_delete :
    (sh : AssocShardSet) (k : UniqueAssociation) (i : ℕ) (j : UniqueAssociation)
    → GoMap.get (shard_delete sh k i) j ≡ (
        if nat_beq (shard_for k) i
        then (if k == j then none else GoMap.get (sh i) j)
        else GoMap.get (sh i) j)
unfolding shard_delete
get-shard_delete sh k i j = ground (arith, GoMap.get-delete (sh i) k j)

pub shard_put-IsSharded :
    (sh : AssocShardSet) (k : UniqueAssociation) (v : ℤ)
    → IsSharded sh
    → IsSharded (shard_put sh k v)
shard_put-IsSharded sh k v h = record {
  distinct = λ i. unfold shard_put in ground (arith, h.distinct i, GoMap.put-Distinct (sh i) k v);
  home = λ i j away.
      ground (arith, get-shard_put sh k v i j, h.home i j away, association_beq_iff k j);
}

pub shard_delete-IsSharded :
    (sh : AssocShardSet) (k : UniqueAssociation) → IsSharded sh → IsSharded (shard_delete sh k)
shard_delete-IsSharded sh k h = record {
  distinct =
      λ i. unfold shard_delete in ground (arith, h.distinct i, GoMap.delete-Distinct (sh i) k);
  home = λ i j away. ground (arith, get-shard_delete sh k i j, h.home i j away);
}

pub promote_into-IsSharded :
    (es : List AssocEntry) (sh : AssocShardSet) → IsSharded sh → IsSharded (promote_into sh es)
unfolding promote_into
promote_into-IsSharded [] sh h = h
promote_into-IsSharded ((k, p) ∷ es) sh h =
    promote_into-IsSharded es (shard_put sh k p) (shard_put-IsSharded sh k p h)

-- After the promotion of a slice a key's shard holds the slice's entry, or else the old one.
pub get-promote_into :
    (es : List AssocEntry) (sh : AssocShardSet) (k : UniqueAssociation)
    → GoMap.Distinct es
    → GoMap.get (promote_into sh es (shard_for k)) k
      ≡ (if is_some (GoMap.get es k) then GoMap.get es k else GoMap.get (sh (shard_for k)) k)
unfolding promote_into GoMap.get
get-promote_into [] sh k d = refl
get-promote_into ((i, p) ∷ es) sh k d = ground (
  arith,
  get-promote_into es (shard_put sh i p) k,
  get-shard_put sh i p (shard_for k) k,
  association_beq_iff i k,
)

-- The concatenation of the first `n` shards.
pub get-shard_entries :
    (sh : AssocShardSet) (n : ℕ) (k : UniqueAssociation)
    → IsSharded sh
    → GoMap.get (shard_entries sh n) k
      ≡ (if ltb (shard_for k) n then GoMap.get (sh (shard_for k)) k else none)
unfolding shard_entries GoMap.get
get-shard_entries sh zero k h = ground arith
get-shard_entries sh (suc n) k h =
    ground
      (arith, GoMap.get-append (shard_entries sh n) (sh n) k, get-shard_entries sh n k, h.home n k)
