-- ===== src/Tests/Values.antt =====
-- Values in a collection that starts empty.
use tie.Prelude.{◌≡◌, refl, none, some, [], ◌∷◌, arith, false}
use tie.Tiedb.Triples.{Bytes}
use tie.Prelude.GoMap
use tie.Tiedb.LockedTree
use tie.Tiedb.LockedTree.Hashes.{unique_value_hash, uint64_hash}
use tie.Tiedb.Collection.{
  Collection, secure_level_in_index, secure_int_level, level_at, write_level, new_entry_level,
}
use tie.Tiedb.Intern.{
  as_blob, hash_id, insert, get_entry_from_string, get_value_string, trim_right, insert_blocks,
  value_exists, insert_value, insert_entry, next_id, blocks, pad, chunks,
}
use tie.Tiedb.Intern.Interned.{IsInterned}
use tie.Tiedb.Intern.Inserted.{
  insert-Inserted, get_entry_from_string-insert, get_entry_from_string-kept,
}
use tie.Tiedb.Intern.Texts.{get_value_string-insert}

abbrev nothing_yet : Collection
nothing_yet = record {
  total_entries = 0;
  total_associations = 0;
  levels = [];
  blob_policy = none;
  hash_entries = none;
  hash_values = none;
  hash_associations = none;
  hash_reverse_associations = none;
  reverse_relations = none;
  arena = record { slots = []; free = [] };
  freespace = record { free = []; db_size = 0 };
  cache = none;
  file = record { frames = []; fails = λ p. false };
  closed = false;
  write_queue = [];
  writer_done = false;
  write_to_disk = false;
  read_only = false;
  io_err = none;
  search_gen = 0;
}

nothing_yet-IsInterned : IsInterned nothing_yet
unfolding hash_id
nothing_yet-IsInterned = record {
  entry = λ l uv id e. cc;
  counted = λ l uv id e. cc;
  parents = λ l uv id e. cc;
  one_level = λ l uv m w id e f. cc;
  whole = λ raw id e. cc;
  whole_counted = λ raw id e. cc;
  apart = λ raw l uv id e f. cc;
}

abbrev rock : Bytes
rock = 114 ∷ 111 ∷ 99 ∷ 107 ∷ []

rock-plain : as_blob nothing_yet rock ≡ none
unfolding as_blob
rock-plain = refl

rock-clean : trim_right rock ≡ rock
unfolding trim_right
rock-clean = refl

get_value_string-insert_example :
    get_value_string
      (insert nothing_yet rock).0
      (insert nothing_yet rock).2
      (insert nothing_yet rock).1
    ≡ rock
get_value_string-insert_example =
    get_value_string-insert nothing_yet rock nothing_yet-IsInterned rock-plain rock-clean
      (omega arith)

get_entry_from_string-insert_example :
    ((get_entry_from_string (insert nothing_yet rock).0 rock).1
      ≡ some ((insert nothing_yet rock).1, (insert nothing_yet rock).2))
    × IsInterned (insert nothing_yet rock).0
get_entry_from_string-insert_example =
    get_entry_from_string-insert nothing_yet rock nothing_yet-IsInterned rock-plain (omega arith)

abbrev one_value : Collection
one_value = (insert nothing_yet rock).0

abbrev jazz : Bytes
jazz = 106 ∷ 97 ∷ 122 ∷ 122 ∷ []

one_value-IsInterned : IsInterned one_value
one_value-IsInterned =
    (get_entry_from_string-insert nothing_yet rock nothing_yet-IsInterned rock-plain
      (omega arith)).1

one_value-total : one_value.total_entries ≡ 1
unfolding insert as_blob insert_blocks value_exists insert_value insert_entry next_id
    secure_level_in_index secure_int_level level_at write_level blocks pad chunks LockedTree.get
    LockedTree.put LockedTree.shard_for LockedTree.write_shard LockedTree.new_locked_tree
    new_entry_level GoMap.get GoMap.put unique_value_hash uint64_hash
one_value-total = refl

jazz-plain : as_blob one_value jazz ≡ none
unfolding as_blob
jazz-plain =
    (insert-Inserted nothing_yet rock nothing_yet-IsInterned rock-plain (omega arith)).blobs jazz

rock-again : as_blob one_value rock ≡ none
unfolding as_blob
rock-again =
    (insert-Inserted nothing_yet rock nothing_yet-IsInterned rock-plain (omega arith)).blobs rock

get_entry_from_string-kept_example :
    (get_entry_from_string (insert one_value jazz).0 rock).1
    ≡ some ((insert nothing_yet rock).1, (insert nothing_yet rock).2)
get_entry_from_string-kept_example =
    get_entry_from_string-kept one_value jazz rock
      ((insert nothing_yet rock).1, (insert nothing_yet rock).2) one_value-IsInterned jazz-plain
      rock-again (omega (arith, one_value-total))
      (get_entry_from_string-insert nothing_yet rock nothing_yet-IsInterned rock-plain
        (omega arith)).0
