-- ===== src/Tests/Collections.antt =====
-- A small collection: the writer's queue, batches and tag queries on it.
use tie.Prelude.{
  ◌≡◌, refl, true, false, none, some, List, [], ◌∷◌, length, arith, nat_eq, replicate,
}
use tie.Prelude.GoMap
use tie.Prelude.Int.{pos}
use tie.Tiedb.Triples.{UniqueValue, Triple}
use tie.Tiedb.AssociationSet.{new_association_set}
use tie.Tiedb.AssociationSet.Refines.{new_association_set-IsValid}
use tie.Tiedb.LockedTree
use tie.Tiedb.LockedTree.{LockedTree, new_locked_tree}
use tie.Tiedb.Records.RoundTrip.{IsStorable}
use tie.Tiedb.Collection.{
  Collection, EntryLevel, Error, unknown_op, FileMod, add_association, unique_value_eq, level_at,
  reverse_associations_tree,
}
use tie.Tiedb.Collection
use tie.Tiedb.Intern.{as_blob, pad, chunks, blocks}
use tie.Tiedb.Intern.Unchanged.{Unchanged}
use tie.Tiedb.Assoc.{get_reverse_associations}
use tie.Tiedb.Writer.{read_slot}
use tie.Tiedb.Writer.ReadYourWrites.{read_slot-added, read_slot-deleted}
use tie.Tiedb.Apply.{Op, unknown, add, validate, validate_op, apply}
use tie.Tiedb.Apply.Validates.{Counts, apply-invalid, apply-Counts}
use tie.Tiedb.Query.{panic, resolve_query}
use tie.Tiedb.Query.Holders.{holders}
use tie.Tiedb.Query.Selects.{plain, Selects, resolve_query-plain, resolve_query-panics}

abbrev likes : Triple
likes = record {
  level = pos 0;
  key = 1;
  value1_level = pos 0;
  value1 = 2;
  value2_level = pos 0;
  value2 = 3;
}

likes-IsStorable : IsStorable likes
likes-IsStorable = record {
  level = omega arith;
  key = omega arith;
  value1_level = omega arith;
  value1 = omega arith;
  value2_level = omega arith;
  value2 = omega arith;
}

-- A collection that keeps its values in the given levels.
abbrev holding : List EntryLevel → List FileMod → Collection
holding levels queue = record {
  total_entries = length levels;
  total_associations = 0;
  levels = levels;
  blob_policy = none;
  hash_entries = none;
  hash_values = none;
  hash_associations = none;
  hash_reverse_associations = none;
  reverse_relations = none;
  arena = record { slots = []; free = [] };
  freespace = record { free = []; db_size = 0 };
  cache = none;
  file = record { frames = []; fails = λ p. false };
  closed = false;
  write_queue = queue;
  writer_done = false;
  write_to_disk = true;
  read_only = false;
  io_err = none;
  search_gen = 0;
}

read_slot-added_example :
    (read_slot (holding [] (add_association (pos 0) likes ∷ [])) (pos 0)).1 ≡ some likes
read_slot-added_example =
    read_slot-added (holding [] (add_association (pos 0) likes ∷ [])) (pos 0) likes [] [] refl tt
      refl likes-IsStorable

abbrev cleared_queue : List FileMod
cleared_queue = add_association (pos 0) likes ∷ Collection.delete (pos 0) ∷ []

read_slot-deleted_example : (read_slot (holding [] cleared_queue) (pos 0)).1 ≡ none
read_slot-deleted_example =
    read_slot-deleted (holding [] cleared_queue) (pos 0) (add_association (pos 0) likes ∷ []) []
      refl tt refl

abbrev strange_op : Op
strange_op = record {
  kind = unknown (1 ∷ []);
  key = [];
  relation = [];
  values = [];
  new_value = [];
}

strange_op-invalid : (validate (holding [] []) 0 (strange_op ∷ [])).1 ≡ some (unknown_op 0)
unfolding validate validate_op
strange_op-invalid = refl

apply-invalid_example :
    ((apply (holding [] []) (strange_op ∷ [])).1 ≡ 0)
    × ((apply (holding [] []) (strange_op ∷ [])).2 ≡ some (unknown_op 0))
    × Unchanged (apply (holding [] []) (strange_op ∷ [])).0 (holding [] [])
apply-invalid_example =
    apply-invalid (holding [] []) (strange_op ∷ []) (unknown_op 0) refl refl strange_op-invalid

abbrev new_op : Op
new_op = record {
  kind = add;
  key = 120 ∷ [];
  relation = 121 ∷ [];
  values = (122 ∷ []) ∷ [];
  new_value = [];
}

apply-Counts_example :
    Counts (apply (holding [] []) (new_op ∷ [])).1 (apply (holding [] []) (new_op ∷ [])).2 1
apply-Counts_example = apply-Counts (holding [] []) (new_op ∷ []) (omega arith)

-- The one value, of the letter x, and the set of the triples that hold it.
abbrev letter_x : UniqueValue
letter_x = record { parent_id = 0; value = 120 ∷ replicate 23 0 }

abbrev x_level : EntryLevel
x_level = record {
  entries = LockedTree.put (new_locked_tree (λ id. 0)) 1 letter_x;
  unique_values = LockedTree.put (new_locked_tree (λ v. 0)) letter_x 1;
  associations = new_locked_tree (λ id. 0);
  reverse_associations = LockedTree.put (new_locked_tree (λ id. 0)) 1 new_association_set;
}

x_held : holders (holding (x_level ∷ []) []) (120 ∷ []) ≡ some new_association_set
unfolding holders as_blob pad chunks blocks LockedTree.get LockedTree.put LockedTree.shard_for
    LockedTree.write_shard LockedTree.new_locked_tree GoMap.get GoMap.put get_reverse_associations
    reverse_associations_tree level_at
x_held = refl

resolve_query-plain_example :
    Selects
      (holding (x_level ∷ []) [])
      new_association_set
      ((121 ∷ []) ∷ [])
      []
      (resolve_query (holding (x_level ∷ []) []) (plain ((120 ∷ []) ∷ (121 ∷ []) ∷ []) [] [])).1
resolve_query-plain_example =
    resolve_query-plain (holding (x_level ∷ []) []) new_association_set (120 ∷ []) ((121 ∷ []) ∷ [])
      [] [] x_held new_association_set-IsValid

resolve_query-panics_example :
    (resolve_query
      (holding (x_level ∷ []) [])
      (record (plain [] ((120 ∷ []) ∷ []) []) { has_relation = 105 ∷ [] })).1
    ≡ panic
resolve_query-panics_example =
    resolve_query-panics (holding (x_level ∷ []) []) (plain [] [] []) 105 [] (120 ∷ []) []
      new_association_set x_held
