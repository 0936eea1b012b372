-- ===== src/Tiedb/Writer.antt =====
-- tiedb/filehandling.go: the writer of one collection. It owns the record file, applies the queued
-- modifications in their order, and serves reads after what is queued.
pub mod ReadYourWrites
use tie.Prelude.{ℕ, Bool, true, false, Option, none, some, List, [], ◌∷◌, if◌then◌else◌, nat_beq}
use tie.Prelude.GoMap
use tie.Prelude.Int.{ℤ, pos, negsuc, int_eq, is_negative}
use tie.Tiedb.Triples.{Bytes, Triple, hash_level}
use tie.Tiedb.Records.{entry_to_bytes, hash_to_bytes, to_bytes, delete_to_bytes, buf_to_association}
use tie.Tiedb.Slots.{free_slot}
use tie.Tiedb.TripleCache
use tie.Tiedb.Collection.{
  Collection, RecordFile, Error, write_failed, FileMod, add_association, add_entry, add_hash,
  delete, barrier, set_io_err,
}

-- db.WriteAt of one frame; a write that fails is taken to leave the file as it was.
unfoldable pub write_at : Collection → ℤ → Bytes → Collection × Option Error
write_at ic p b =
    if ic.file.fails p
    then (ic, some write_failed)
    else (record ic { file = record ic.file { frames = GoMap.put ic.file.frames p b } }, none)

-- A slot is free only once its tombstone is on the file.
unfoldable pub free_if_written : Collection × Option Error → ℤ → Collection × Option Error
free_if_written (ic, some e) p = (ic, some e)
free_if_written (ic, none) p = (record ic { freespace = free_slot ic.freespace p }, none)

unfoldable pub apply_file_mod : Collection → FileMod → Collection × Option Error
unfolding free_if_written
apply_file_mod ic barrier = (ic, none)
apply_file_mod ic (delete p) = free_if_written (write_at ic p delete_to_bytes) p
apply_file_mod ic (add_association p a) = write_at ic p (to_bytes a)
apply_file_mod ic (add_entry p level id uv) = write_at ic p (entry_to_bytes level id uv)
apply_file_mod ic (add_hash p id raw) = write_at ic p (hash_to_bytes id raw)

-- The loop of the drain: the error of a write is dropped.
unfoldable pub drain : Collection → List FileMod → Collection
drain ic [] = ic
drain ic (m ∷ ms) = drain (apply_file_mod ic m).0 ms

unfoldable pub drain_write_queue : Collection → Collection
drain_write_queue ic = drain (record ic { write_queue = [] }) ic.write_queue

record_error : Collection × Option Error → Collection
record_error (ic, none) = ic
record_error (ic, some e) = set_io_err ic e

-- One modification that the writer takes from the queue: an error becomes the sticky one.
unfoldable pub writer_step : Collection → Collection
unfolding record_error
writer_step ic = elim ic.write_queue [
  | [] ↦ ic
  | m ∷ ms ↦ record_error (apply_file_mod (record ic { write_queue = ms }) m)
]

-- The record at the position after the queued writes; `none` where there is none or it is of
-- another type.
unfoldable pub read_slot : Collection → ℤ → Collection × Option Triple
read_slot ic p =
    let ic1 = drain_write_queue ic in
    (ic1, elim (GoMap.get ic1.file.frames p) [ none ↦ none | some b ↦ buf_to_association b ])

-- Where the writer has gone, Go may still choose to queue the request, and then no reply comes.
unfoldable pub read_triple_at : Collection → ℤ → Collection × Option Triple
read_triple_at ic p =
    if ic.closed
    then (ic, none)
    else if ic.read_only
    then read_slot ic p
    else if ic.writer_done
    then (ic, none)
    else read_slot ic p
