-- ===== src/Tiedb/AssociationSet.antt =====
-- tiedb/associationset.go: the map from an association to the position of its record, in three
-- tiers by size: one inline entry, a slice, sixteen sharded maps.
pub mod Slices
pub mod Shards
pub mod Refines
pub mod Visits
pub mod Algebra
use Prim.Native.Nat.{bit_xor}
use tie.Prelude.{
  ℕ, zero, suc, ◌+◌, ◌-◌, ◌*◌, ◌%◌, ◌^◌, ◌≡◌, ◌↔◌, Bool, true, false, ◌&&◌, Option, none, some,
  List, [], ◌∷◌, ◌++◌, foldl, arith, ltb, nat_beq, nat_beq_iff, if◌then◌else◌, Eq, nat_eq, ◌==◌,
  is_some, length, get_elem?, set, take,
}
use tie.Prelude.GoMap
use tie.Prelude.Int.{ℤ, pos}

pub record UniqueAssociation : Type 0 where
  pub associate_to : ℕ
  pub relation : ℕ

unfoldable pub association_beq : UniqueAssociation → UniqueAssociation → Bool
association_beq a b = nat_beq a.associate_to b.associate_to && nat_beq a.relation b.relation

pub association_beq_iff : (a b : UniqueAssociation) → (association_beq a b ≡ true) ↔ (a ≡ b)
unfolding association_beq
association_beq_iff a b = (λ h. ground arith, λ h. ground arith)

instance abbrev pub association_eq : Eq UniqueAssociation
association_eq = record { beq = association_beq; beq_iff = association_beq_iff }

-- An entry of the slice, and one call of a visitor.
abbrev pub AssocEntry : Type 0
AssocEntry = UniqueAssociation × ℤ

-- The maps of the shards, by their index; an index is always below `assoc_shards`.
abbrev pub AssocShardSet : Type 0
AssocShardSet = ℕ → List AssocEntry

abbrev pub assoc_shards : ℕ
assoc_shards = 16

abbrev pub shard_threshold : ℕ
shard_threshold = 256

-- `none` in `small` and `shards` is Go's nil; an emptied slice is not nil.
pub record AssociationSet : Type 0 where
  pub inline_key : UniqueAssociation
  pub inline_val : ℤ
  pub has_inline : Bool
  pub small : Option (List AssocEntry)
  pub shards : Option AssocShardSet

unfoldable pub new_association_set : AssociationSet
new_association_set = record {
  inline_key = record { associate_to = 0; relation = 0 };
  inline_val = pos 0;
  has_inline = false;
  small = none;
  shards = none;
}

-- `h & (assocShards - 1)` is the remainder by the power of two.
unfoldable pub shard_for : UniqueAssociation → ℕ
shard_for key = bit_xor key.associate_to (key.relation * 0x9e3779b97f4a7c15 % 2 ^ 64) % assoc_shards

unfoldable pub shard_put : AssocShardSet → UniqueAssociation → ℤ → AssocShardSet
shard_put sh key value i = if shard_for key == i then GoMap.put (sh i) key value else sh i

unfoldable pub shard_delete : AssocShardSet → UniqueAssociation → AssocShardSet
shard_delete sh key i = if shard_for key == i then GoMap.delete (sh i) key else sh i

unfoldable pub promote_into : AssocShardSet → List AssocEntry → AssocShardSet
promote_into sh [] = sh
promote_into sh ((k, p) ∷ es) = promote_into (shard_put sh k p) es

-- The caller has just grown the slice `es` past the threshold.
unfoldable pub promote : AssociationSet → List AssocEntry → AssociationSet
promote s es = record s { shards = some (promote_into (λ _. []) es); small = none }

get_unsharded : AssociationSet → UniqueAssociation → Option ℤ
get_unsharded s key = elim s.small [
  | some es ↦ GoMap.get es key
  | none ↦ if s.has_inline && s.inline_key == key then some s.inline_val else none
]

unfoldable pub get : AssociationSet → UniqueAssociation → Option ℤ
unfolding get_unsharded
get s key = elim s.shards [
  | none ↦ get_unsharded s key
  | some sh ↦ GoMap.get (sh (shard_for key)) key
]

-- The in-place update of the slice; `none` if no entry has the key.
unfoldable pub overwrite : List AssocEntry → UniqueAssociation → ℤ → Option (List AssocEntry)
overwrite [] key value = none
overwrite ((k, p) ∷ es) key value =
    let rest = overwrite es key value in
    if k == key
    then some ((k, value) ∷ es)
    else elim rest [ none ↦ none | some es' ↦ some ((k, p) ∷ es') ]

append_entry : AssociationSet → List AssocEntry → AssociationSet
append_entry s es =
    if ltb shard_threshold (length es) then promote s es else record s { small = some es }

put_small : AssociationSet → List AssocEntry → UniqueAssociation → ℤ → AssociationSet
unfolding append_entry
put_small s es key value = elim (overwrite es key value) [
  | some es' ↦ record s { small = some es' }
  | none ↦ append_entry s (es ++ (key, value) ∷ [])
]

put_inline : AssociationSet → UniqueAssociation → ℤ → AssociationSet
put_inline s key value =
    if s.has_inline
    then (if s.inline_key == key then record s { inline_val = value } else record s {
      small = some ((s.inline_key, s.inline_val) ∷ (key, value) ∷ []);
      has_inline = false;
    })
    else record s { inline_key = key; inline_val = value; has_inline = true }

unfoldable pub put : AssociationSet → UniqueAssociation → ℤ → AssociationSet
unfolding put_small put_inline
put s key value = elim s.shards [
  | some sh ↦ record s { shards = some (shard_put sh key value) }
  | none ↦ elim s.small [ some es ↦ put_small s es key value | none ↦ put_inline s key value ]
]

-- The index of the first entry with the key.
unfoldable pub index_of : List AssocEntry → UniqueAssociation → Option ℕ
index_of [] key = none
index_of ((k, p) ∷ es) key =
    let rest = index_of es key in
    if k == key then some 0 else elim rest [ none ↦ none | some i ↦ some (suc i) ]

-- s.small[i] = s.small[last]; s.small = s.small[:last]
unfoldable pub swap_remove : List AssocEntry → ℕ → List AssocEntry
swap_remove es i = elim (get_elem? es (length es - 1)) [
  | none ↦ es
  | some e ↦ take (length es - 1) (set es i e)
]

delete_small : AssociationSet → List AssocEntry → UniqueAssociation → AssociationSet
delete_small s es key = elim (index_of es key) [
  | none ↦ s
  | some i ↦ record s { small = some (swap_remove es i) }
]

unfoldable pub delete : AssociationSet → UniqueAssociation → AssociationSet
unfolding delete_small
delete s key = elim s.shards [
  | some sh ↦ record s { shards = some (shard_delete sh key) }
  | none ↦ elim s.small [
    | some es ↦ delete_small s es key
    | none ↦ if s.has_inline && s.inline_key == key then record s { has_inline = false } else s
  ]
]

-- The first `n` shards, in the order of the loop over them.
unfoldable pub shard_entries : AssocShardSet → ℕ → List AssocEntry
shard_entries sh zero = []
shard_entries sh (suc n) = shard_entries sh n ++ sh n

-- The entries that `ForEach` calls its visitor with, in order.
unfoldable pub entries : AssociationSet → List AssocEntry
entries s = elim s.shards [
  | some sh ↦ shard_entries sh assoc_shards
  | none ↦ elim s.small [
    | some es ↦ es
    | none ↦ if s.has_inline then (s.inline_key, s.inline_val) ∷ [] else []
  ]
]

shard_sizes : AssocShardSet → ℕ → ℕ
shard_sizes sh zero = 0
shard_sizes sh (suc n) = shard_sizes sh n + length (sh n)

unfoldable pub size : AssociationSet → ℕ
unfolding shard_sizes
size s = elim s.shards [
  | some sh ↦ shard_sizes sh assoc_shards
  | none ↦ elim s.small [ some es ↦ length es | none ↦ if s.has_inline then 1 else 0 ]
]

unfoldable pub any_relation : ℕ → List AssocEntry → Bool
any_relation rel [] = false
any_relation rel ((k, p) ∷ es) = if k.relation == rel then true else any_relation rel es

-- The three loops of `HasRelation`, one for each tier.
unfoldable pub has_relation : AssociationSet → ℕ → Bool
has_relation s rel = elim s.shards [
  | some sh ↦ any_relation rel (shard_entries sh assoc_shards)
  | none ↦ elim s.small [
    | some es ↦ any_relation rel es
    | none ↦ s.has_inline && s.inline_key.relation == rel
  ]
]

-- The visitor of `intersect`, `intersectByAssociate` and `exclude`, over the visited entries.
unfoldable pub put_if :
    (UniqueAssociation → Bool) → AssociationSet → List AssocEntry → AssociationSet
put_if test out [] = out
put_if test out ((k, p) ∷ es) = put_if test (if test k then put out k p else out) es

unfoldable pub intersect : AssociationSet → AssociationSet → AssociationSet
intersect s other = put_if (λ k. is_some (get other k)) new_association_set (entries s)

associates : List AssocEntry → List (ℕ × Unit {0})
associates [] = []
associates ((k, p) ∷ es) = GoMap.put (associates es) k.associate_to tt

unfoldable pub intersect_by_associate : AssociationSet → AssociationSet → AssociationSet
unfolding associates
intersect_by_associate s other =
    put_if (λ k. is_some (GoMap.get (associates (entries other)) k.associate_to))
      new_association_set (entries s)

unfoldable pub exclude : AssociationSet → AssociationSet → AssociationSet
exclude s other =
    put_if (λ k. elim (get other k) [ none ↦ true | some p ↦ false ]) new_association_set
      (entries s)
