-- ===== src/Tiedb/Collection.antt =====
-- tiedb/datastructures.go and tiedb/collection.go: the state of one collection, its trees by
-- level, and the queue to its writer.
pub mod Trees
use tie.Prelude.{
  ℕ, zero, suc, ◌+◌, ◌-◌, ◌%◌, ◌^◌, Bool, true, false, Option, none, some, List, [], ◌∷◌, ◌++◌,
  if◌then◌else◌, length, get_elem?, set, Eq, nat_eq, nat_beq, list_eq, ◌==◌, ◌&&◌, ◌≡◌, ◌↔◌, arith,
  leb, list_beq, list_beq_iff, replicate,
}
use tie.Prelude.Int.{ℤ, pos, negsuc, int_beq}
use tie.Tiedb.Triples.{Bytes, UniqueValue, Triple, hash_level}
use tie.Tiedb.AssociationSet.{AssociationSet}
use tie.Tiedb.LockedTree
use tie.Tiedb.LockedTree.{LockedTree, new_locked_tree}
use tie.Tiedb.LockedTree.Hashes.{uint64_hash, unique_value_hash, hash_hash}
use tie.Tiedb.TripleCache.{TripleCache}
use tie.Tiedb.Slots.{Arena, Freespace}

abbrev pub unique_value_beq : UniqueValue → UniqueValue → Bool
unique_value_beq a b = nat_beq a.parent_id b.parent_id && list_beq a.value b.value

pub unique_value_beq_iff : (a b : UniqueValue) → (unique_value_beq a b ≡ true) ↔ (a ≡ b)
unique_value_beq_iff a b = (
  (λ h. ground (arith, list_beq_iff a.value b.value)),
  (λ h. ground (arith, list_beq_iff a.value b.value)),
)

instance abbrev pub unique_value_eq : Eq UniqueValue
unique_value_eq = record { beq = unique_value_beq; beq_iff = unique_value_beq_iff }

-- The sticky or immediate failure of a write.
pub data Error : Type 0 where
  read_only_error writer_gone write_failed dir_spec_incomplete : Error
  op_not_found unknown_op : ℕ → Error

-- `Encode` gives the raw bytes of a value that is stored whole; `Decode` is its inverse.
pub record BlobPolicy : Type 0 where
  pub encode : Bytes → Option Bytes
  pub decode : Bytes → Bytes

-- One queued modification of the record file; a position comes before what is written there.
pub data FileMod : Type 0 where
  add_association : ℤ → Triple → FileMod
  add_entry : ℤ → ℤ → ℕ → UniqueValue → FileMod
  add_hash : ℤ → ℕ → Bytes → FileMod
  delete : ℤ → FileMod
  barrier : FileMod

-- The frames of the record file by their offset, and the offsets at which a write fails.
pub record RecordFile : Type 0 where
  pub frames : List (ℤ × Bytes)
  pub fails : ℤ → Bool

pub record EntryLevel : Type 0 where
  pub entries : LockedTree ℕ UniqueValue
  pub unique_values : LockedTree UniqueValue ℕ
  pub associations : LockedTree ℕ AssociationSet
  pub reverse_associations : LockedTree ℕ AssociationSet

-- `read_only`, `closed` and the trees are set when a collection is opened or closed.
-- `levelCount` is the length of `levels`. A tree is `none` where Go's pointer is nil.
pub record Collection : Type 0 where
  pub total_entries : ℕ
  pub total_associations : ℕ
  pub levels : List EntryLevel
  pub blob_policy : Option BlobPolicy
  pub hash_entries : Option (LockedTree ℕ Bytes)
  pub hash_values : Option (LockedTree Bytes ℕ)
  pub hash_associations : Option (LockedTree ℕ AssociationSet)
  pub hash_reverse_associations : Option (LockedTree ℕ AssociationSet)
  pub reverse_relations : Option (List Bytes)
  pub arena : Arena
  pub freespace : Freespace
  pub cache : Option TripleCache
  pub file : RecordFile
  pub closed : Bool
  pub write_queue : List FileMod
  pub writer_done : Bool
  pub write_to_disk : Bool
  pub read_only : Bool
  pub io_err : Option Error
  pub search_gen : ℕ

-- Addition of one to an atomic uint64.
abbrev pub increment : ℕ → ℕ
increment n = (n + 1) % 2 ^ 64

unfoldable pub new_entry_level : EntryLevel
new_entry_level = record {
  entries = new_locked_tree uint64_hash;
  unique_values = new_locked_tree (λ v. unique_value_hash v.parent_id v.value);
  associations = new_locked_tree uint64_hash;
  reverse_associations = new_locked_tree uint64_hash;
}

unfoldable pub set_reverse_relations : Collection → Option (List Bytes) → Collection
set_reverse_relations ic relations = record ic { reverse_relations = relations }

unfoldable pub set_blob_policy : Collection → Option BlobPolicy → Collection
set_blob_policy ic none = record ic { blob_policy = none; hash_entries = none; hash_values = none }
set_blob_policy ic (some p) = record ic {
  blob_policy = some p;
  hash_entries = some (new_locked_tree uint64_hash);
  hash_values = some (new_locked_tree hash_hash);
  hash_associations = some (new_locked_tree uint64_hash);
  hash_reverse_associations = some (new_locked_tree uint64_hash);
}

-- The levels that are missing up to `level` are appended empty.
unfoldable pub secure_level_in_index : Collection → ℕ → Collection
secure_level_in_index ic level = record ic {
  levels = ic.levels ++ replicate (suc level - length ic.levels) new_entry_level;
}

-- The same at a level as stored in a triple; a negative one asks for nothing.
unfoldable pub secure_int_level : Collection → ℤ → Collection
secure_int_level ic (pos l) = secure_level_in_index ic l
secure_int_level ic (negsuc l) = ic

unfoldable pub level_at : Collection → ℤ → Option EntryLevel
level_at ic (pos l) = get_elem? ic.levels l
level_at ic (negsuc l) = none

unfoldable pub associations_tree : Collection → ℤ → Option (LockedTree ℕ AssociationSet)
associations_tree ic level =
    if int_beq level hash_level
    then ic.hash_associations
    else elim (level_at ic level) [ none ↦ none | some lvl ↦ some lvl.associations ]

unfoldable pub reverse_associations_tree : Collection → ℤ → Option (LockedTree ℕ AssociationSet)
reverse_associations_tree ic level =
    if int_beq level hash_level
    then ic.hash_reverse_associations
    else elim (level_at ic level) [ none ↦ none | some lvl ↦ some lvl.reverse_associations ]

-- The levels after a change of one of them; the trees are shared, so a change is seen by all.
unfoldable pub write_level : Collection → ℤ → (EntryLevel → EntryLevel) → Collection
write_level ic (negsuc l) change = ic
write_level ic (pos l) change = elim (get_elem? ic.levels l) [
  | none ↦ ic
  | some lvl ↦ record ic { levels = set ic.levels l (change lvl) }
]

abbrev pub map_tree :
    Option (LockedTree ℕ AssociationSet)
    → (LockedTree ℕ AssociationSet → LockedTree ℕ AssociationSet)
    → Option (LockedTree ℕ AssociationSet)
map_tree none change = none
map_tree (some t) change = some (change t)

unfoldable pub write_associations :
    Collection → ℤ → (LockedTree ℕ AssociationSet → LockedTree ℕ AssociationSet) → Collection
write_associations ic level change =
    if int_beq level hash_level
    then record ic { hash_associations = map_tree ic.hash_associations change }
    else write_level ic level (λ lvl. record lvl { associations = change lvl.associations })

unfoldable pub write_reverse_associations :
    Collection → ℤ → (LockedTree ℕ AssociationSet → LockedTree ℕ AssociationSet) → Collection
write_reverse_associations ic level change =
    if int_beq level hash_level
    then record ic { hash_reverse_associations = map_tree ic.hash_reverse_associations change }
    else write_level ic level
        (λ lvl. record lvl { reverse_associations = change lvl.reverse_associations })

-- The first failure is the one that stays.
unfoldable pub set_io_err : Collection → Error → Collection
set_io_err ic e = elim ic.io_err [ none ↦ record ic { io_err = some e } | some old ↦ ic ]

-- Where the writer has gone, Go may still choose to fill the queue's buffer; here it refuses.
unfoldable pub queue_write : Collection → FileMod → Collection × Bool
unfolding set_io_err
queue_write ic m =
    if ic.read_only
    then (ic, false)
    else if ic.writer_done
    then (set_io_err ic writer_gone, false)
    else (record ic { write_queue = ic.write_queue ++ m ∷ [] }, true)
