-- ===== src/Tiedb/Intern/Lookups.antt =====
-- The tables of the interned values, and how a new entry changes them.
use tie.Prelude.{
  ℕ, ◌≡◌, refl, sym, ◌∙◌, ap, Bool, true, false, ◌&&◌, Option, none, some, [], ◌∷◌, ◌++◌,
  if◌then◌else◌, nat_eq, nat_beq, nat_beq_iff, ◌==◌,
}
use tie.Prelude.Int.{ℤ, pos}
use tie.Tiedb.Triples.{UniqueValue}
use tie.Tiedb.AssociationSet.{AssociationSet}
use tie.Tiedb.LockedTree
use tie.Tiedb.LockedTree.{LockedTree}
use tie.Tiedb.LockedTree.Refines
use tie.Tiedb.LockedTree.Refines.{get-new_locked_tree}
use tie.Tiedb.Collection.{
  Collection, EntryLevel, FileMod, unique_value_eq, new_entry_level, secure_level_in_index,
  secure_int_level, queue_write, Error, writer_gone,
}
use tie.Tiedb.Collection.Trees.{
  at_level, through, through-secure, get_elem?-some, length-secure, through-write_level,
}
use tie.Tiedb.Slots.{alloc_slot}
use tie.Tiedb.Intern.{insert_entry, queue_record}

-- The id of a block below a parent, and the block of an id, at a level.
abbrev pub value_at : Collection → ℕ → UniqueValue → Option ℕ
value_at ic l uv = through (λ lvl. LockedTree.get lvl.unique_values uv) ic.levels l

abbrev pub entry_at : Collection → ℕ → ℕ → Option UniqueValue
entry_at ic l id = through (λ lvl. LockedTree.get lvl.entries id) ic.levels l

abbrev pub forward_at : Collection → ℕ → ℕ → Option AssociationSet
forward_at ic l id = through (λ lvl. LockedTree.get lvl.associations id) ic.levels l

abbrev pub reverse_at : Collection → ℕ → ℕ → Option AssociationSet
reverse_at ic l id = through (λ lvl. LockedTree.get lvl.reverse_associations id) ic.levels l

new_values : (uv : UniqueValue) → LockedTree.get new_entry_level.unique_values uv ≡ none
unfolding new_entry_level
new_values uv = get-new_locked_tree {V = ℕ} _ uv

new_entries : (id : ℕ) → LockedTree.get new_entry_level.entries id ≡ none
unfolding new_entry_level
new_entries id = get-new_locked_tree {V = UniqueValue} _ id

new_forward : (id : ℕ) → LockedTree.get new_entry_level.associations id ≡ none
unfolding new_entry_level
new_forward id = get-new_locked_tree {V = AssociationSet} _ id

new_reverse : (id : ℕ) → LockedTree.get new_entry_level.reverse_associations id ≡ none
unfolding new_entry_level
new_reverse id = get-new_locked_tree {V = AssociationSet} _ id

-- Two collections with the same four tables, whatever empty levels they have.
pub record SameTables (a b : Collection) : Type 0 where
  pub values : (l : ℕ) (uv : UniqueValue) → value_at a l uv ≡ value_at b l uv
  pub entries : (l id : ℕ) → entry_at a l id ≡ entry_at b l id
  pub forward : (l id : ℕ) → forward_at a l id ≡ forward_at b l id
  pub reverse : (l id : ℕ) → reverse_at a l id ≡ reverse_at b l id

pub secure-SameTables : (ic : Collection) (l : ℕ) → SameTables (secure_level_in_index ic l) ic
secure-SameTables ic l = record {
  values = λ i uv. through-secure _ ic l i (new_values uv);
  entries = λ i id. through-secure _ ic l i (new_entries id);
  forward = λ i id. through-secure _ ic l i (new_forward id);
  reverse = λ i id. through-secure _ ic l i (new_reverse id);
}

-- A lookup in the level that an entry is written to.
level_after :
    {A : Type 0} (f : EntryLevel → Option A) (ic : Collection) (l id : ℕ) (uv : UniqueValue) (i : ℕ)
    (g : EntryLevel → Option A)
    → f new_entry_level ≡ none
    → ((lvl : EntryLevel)
        → f (record lvl {
          entries = LockedTree.put lvl.entries id uv;
          unique_values = LockedTree.put lvl.unique_values uv id;
        })
          ≡ g lvl)
    → (lvl : EntryLevel) × (f lvl ≡ through f ic.levels l)
      × (through f (insert_entry ic (pos l) id uv).levels i
          ≡ (if nat_beq l i then g lvl else through f ic.levels i))
unfolding insert_entry secure_int_level
level_after f ic l id uv i g empty step =
    let ic1 = secure_level_in_index ic l in
    let (lvl, e) = get_elem?-some ic1.levels l (length-secure ic l) in
    (
      lvl,
      sym (ap (λ o. at_level o f) e) ∙ through-secure f ic l l empty,
      (rw (through-write_level f ic1 l lvl _ i e (length-secure ic l))
          (rw (step lvl, through-secure f ic l i empty) refl)),
    )

-- Two tests on the way to one entry are one test.
merge :
    {A : Type 0} (a b : Bool) (v : Option A) {x y z : Option A}
    → (a ≡ true → x ≡ y)
    → z ≡ (if a then (if b then v else x) else y)
    → z ≡ (if a && b then v else y)
merge true true v e h = h
merge true false v e h = h ∙ e refl
merge false b v e h = h

unchanged :
    {A : Type 0} (a : Bool) {x y z : Option A}
    → (a ≡ true → x ≡ y)
    → z ≡ (if a then x else y)
    → z ≡ y
unchanged true e h = h ∙ e refl
unchanged false e h = h

module _ (ic : Collection) (l id : ℕ) (uv : UniqueValue) where
  -- A new entry is found by its block, and no other block's id changes.
  pub value_at-insert_entry :
      (i : ℕ) (w : UniqueValue)
      → value_at (insert_entry ic (pos l) id uv) i w
        ≡ (if nat_beq l i && (uv == w) then some id else value_at ic i w)
  value_at-insert_entry i w =
      let (lvl, old, new) =
        level_after (λ lvl. LockedTree.get lvl.unique_values w) ic l id uv i
          (λ lvl. if uv == w then some id else LockedTree.get lvl.unique_values w) (new_values w)
          (λ lvl. Refines.get-put lvl.unique_values uv id w) in
      merge (nat_beq l i) (uv == w) (some id)
        (λ e. old ∙ ap (λ k. value_at ic k w) ((nat_beq_iff l i).0 e)) new

  -- It is found by its id, and no other id's block changes.
  pub entry_at-insert_entry :
      (i j : ℕ)
      → entry_at (insert_entry ic (pos l) id uv) i j
        ≡ (if nat_beq l i && nat_beq id j then some uv else entry_at ic i j)
  entry_at-insert_entry i j =
      let (lvl, old, new) =
        level_after (λ lvl. LockedTree.get lvl.entries j) ic l id uv i
          (λ lvl. if nat_beq id j then some uv else LockedTree.get lvl.entries j) (new_entries j)
          (λ lvl. Refines.get-put lvl.entries id uv j) in
      merge (nat_beq l i) (nat_beq id j) (some uv)
        (λ e. old ∙ ap (λ k. entry_at ic k j) ((nat_beq_iff l i).0 e)) new

  pub forward_at-insert_entry :
      (i j : ℕ) → forward_at (insert_entry ic (pos l) id uv) i j ≡ forward_at ic i j
  forward_at-insert_entry i j =
      let (lvl, old, new) =
        level_after (λ lvl. LockedTree.get lvl.associations j) ic l id uv i
          (λ lvl. LockedTree.get lvl.associations j) (new_forward j) (λ lvl. refl) in
      unchanged (nat_beq l i) (λ e. old ∙ ap (λ k. forward_at ic k j) ((nat_beq_iff l i).0 e)) new

  pub reverse_at-insert_entry :
      (i j : ℕ) → reverse_at (insert_entry ic (pos l) id uv) i j ≡ reverse_at ic i j
  reverse_at-insert_entry i j =
      let (lvl, old, new) =
        level_after (λ lvl. LockedTree.get lvl.reverse_associations j) ic l id uv i
          (λ lvl. LockedTree.get lvl.reverse_associations j) (new_reverse j) (λ lvl. refl) in
      unchanged (nat_beq l i) (λ e. old ∙ ap (λ k. reverse_at ic k j) ((nat_beq_iff l i).0 e)) new

-- What a queued record leaves alone.
pub record SameIndex (a b : Collection) : Type 0 where
  pub levels : a.levels ≡ b.levels
  pub total_entries : a.total_entries ≡ b.total_entries
  pub blob_policy : a.blob_policy ≡ b.blob_policy
  pub hash_entries : a.hash_entries ≡ b.hash_entries
  pub hash_values : a.hash_values ≡ b.hash_values
  pub hash_associations : a.hash_associations ≡ b.hash_associations
  pub hash_reverse_associations : a.hash_reverse_associations ≡ b.hash_reverse_associations
  pub reverse_relations : a.reverse_relations ≡ b.reverse_relations
  pub write_to_disk : a.write_to_disk ≡ b.write_to_disk
  pub read_only : a.read_only ≡ b.read_only
  pub writer_done : a.writer_done ≡ b.writer_done

SameIndex-refl : (a : Collection) → SameIndex a a
SameIndex-refl a = record {
  levels = refl;
  total_entries = refl;
  blob_policy = refl;
  hash_entries = refl;
  hash_values = refl;
  hash_associations = refl;
  hash_reverse_associations = refl;
  reverse_relations = refl;
  write_to_disk = refl;
  read_only = refl;
  writer_done = refl;
}

first_error :
    (ic : Collection) (e : Error) (o : Option Error)
    → SameIndex (elim o [ none ↦ record ic { io_err = some e } | some old ↦ ic ]) ic
first_error ic e none = record {
  levels = refl;
  total_entries = refl;
  blob_policy = refl;
  hash_entries = refl;
  hash_values = refl;
  hash_associations = refl;
  hash_reverse_associations = refl;
  reverse_relations = refl;
  write_to_disk = refl;
  read_only = refl;
  writer_done = refl;
}
first_error ic e (some old) = SameIndex-refl ic

queued :
    (ic ic1 : Collection) (m : FileMod) (ro gone : Bool)
    → SameIndex ic1 ic
    → SameIndex
        (if◌then◌else◌ {A = Collection × Bool} ro
          (ic, false)
          (if gone
            then (ic1, false)
            else (record ic { write_queue = ic.write_queue ++ m ∷ [] }, true))).0
        ic
queued ic ic1 m true gone h = SameIndex-refl ic
queued ic ic1 m false true h = h
queued ic ic1 m false false h = record {
  levels = refl;
  total_entries = refl;
  blob_policy = refl;
  hash_entries = refl;
  hash_values = refl;
  hash_associations = refl;
  hash_reverse_associations = refl;
  reverse_relations = refl;
  write_to_disk = refl;
  read_only = refl;
  writer_done = refl;
}

-- Queueing a write, or failing to, changes no index.
pub queue_write-SameIndex : (ic : Collection) (m : FileMod) → SameIndex (queue_write ic m).0 ic
unfolding queue_write
queue_write-SameIndex ic m =
    queued ic _ m ic.read_only ic.writer_done (first_error ic writer_gone ic.io_err)

pub queue_record-SameIndex : (ic : Collection) (m : ℤ → FileMod) → SameIndex (queue_record ic m) ic
queue_record-SameIndex ic m = by_mode ic.write_to_disk
  where
    by_mode :
        (disk : Bool)
        → SameIndex
            (if disk
              then (queue_write
                  (record ic { freespace = (alloc_slot ic.freespace).1 })
                  (m (alloc_slot ic.freespace).0)).0
              else ic)
            ic
    by_mode true =
        let q =
          queue_write-SameIndex (record ic { freespace = (alloc_slot ic.freespace).1 })
            (m (alloc_slot ic.freespace).0) in
        record {
          levels = q.levels;
          total_entries = q.total_entries;
          blob_policy = q.blob_policy;
          hash_entries = q.hash_entries;
          hash_values = q.hash_values;
          hash_associations = q.hash_associations;
          hash_reverse_associations = q.hash_reverse_associations;
          reverse_relations = q.reverse_relations;
          write_to_disk = q.write_to_disk;
          read_only = q.read_only;
          writer_done = q.writer_done;
        }
    by_mode false = SameIndex-refl ic
