-- ===== src/Tiedb/Intern/Inserts.antt =====
-- What the insertion of one block changes.
use tie.Prelude.{
  ℕ, ◌+◌, ◌^◌, ◌<◌, ◌≡◌, refl, ◌∙◌, ap, ◌&&◌, Option, none, some, List, [], arith, if◌then◌else◌,
  set, nat_eq, nat_beq, list_eq, ◌==◌,
}
use tie.Prelude.Int.{pos}
use tie.Tiedb.Triples.{Bytes, UniqueValue}
use tie.Tiedb.LockedTree
use tie.Tiedb.LockedTree.{LockedTree}
use tie.Tiedb.Collection.{
  Collection, EntryLevel, BlobPolicy, add_entry, unique_value_eq, increment, write_level,
  secure_int_level, secure_level_in_index,
}
use tie.Tiedb.Collection.Trees.{through}
use tie.Tiedb.Intern.{next_id, hash_id, as_blob, insert_entry, insert_value, queue_record}
use tie.Tiedb.Intern.Lookups.{
  value_at-insert_entry, entry_at-insert_entry, SameIndex, queue_record-SameIndex,
}
use tie.Tiedb.Intern.Interned.{hash_raw, AddsEntry}

one_level_written :
    (ic : Collection) (l : ℕ) (f : EntryLevel → EntryLevel) (o : Option EntryLevel)
    → record (elim o as (λ _. Collection) [
      | none ↦ ic
      | some lvl ↦ record ic { levels = set ic.levels l (f lvl) }
    ]) { levels = [] }
      ≡ record ic { levels = [] }
one_level_written ic l f none = refl
one_level_written ic l f (some lvl) = refl

insert_entry-others :
    (ic : Collection) (l id : ℕ) (uv : UniqueValue)
    → record (insert_entry ic (pos l) id uv) { levels = [] } ≡ record ic { levels = [] }
unfolding insert_entry write_level secure_int_level secure_level_in_index
insert_entry-others ic l id uv = one_level_written _ l _ _

-- An entry written on a collection that only has a new number.
module _ (ic q : Collection) (l id : ℕ) (uv : UniqueValue)
    (s : SameIndex q (record ic { total_entries = id })) where
  hash_id-written : (raw : Bytes) → hash_id (insert_entry q (pos l) id uv) raw ≡ hash_id ic raw
  unfolding hash_id
  hash_id-written raw =
      ap (λ (c : Collection). hash_id c raw) (insert_entry-others q l id uv)
      ∙ ap (λ (t : Option (LockedTree Bytes ℕ)). hash_id (record ic { hash_values = t }) raw)
          s.hash_values

  hash_raw-written : (j : ℕ) → hash_raw (insert_entry q (pos l) id uv) j ≡ hash_raw ic j
  hash_raw-written j =
      ap (λ (c : Collection). hash_raw c j) (insert_entry-others q l id uv)
      ∙ ap (λ (t : Option (LockedTree ℕ Bytes)). hash_raw (record ic { hash_entries = t }) j)
          s.hash_entries

  as_blob-written : (v : Bytes) → as_blob (insert_entry q (pos l) id uv) v ≡ as_blob ic v
  unfolding as_blob
  as_blob-written v =
      ap (λ (c : Collection). as_blob c v) (insert_entry-others q l id uv)
      ∙ ap (λ (t : Option BlobPolicy). as_blob (record ic { blob_policy = t }) v) s.blob_policy

  written-AddsEntry : AddsEntry ic (insert_entry q (pos l) id uv) l id uv
  written-AddsEntry = record {
    values = λ i w.
        value_at-insert_entry q l id uv i w
        ∙ ap
            (λ (levels : List EntryLevel).
              if nat_beq l i && (uv == w)
              then some id
              else through (λ lvl. LockedTree.get lvl.unique_values w) levels i)
            s.levels;
    entries = λ i j.
        entry_at-insert_entry q l id uv i j
        ∙ ap
            (λ (levels : List EntryLevel).
              if nat_beq l i && nat_beq id j
              then some uv
              else through (λ lvl. LockedTree.get lvl.entries j) levels i)
            s.levels;
    hashes = hash_id-written;
    raws = hash_raw-written;
    total =
        ap (λ (c : Collection). c.total_entries) (insert_entry-others q l id uv) ∙ s.total_entries;
  }

increment_small : (n : ℕ) → n + 1 < 2 ^ 64 → increment n ≡ n + 1
increment_small n h = omega arith

-- What the insertion of one block gives.
pub record OneBlock (ic : Collection) (l parent : ℕ) (b : Bytes) (r : ℕ × Collection) : Type 0 where
  pub fresh : r.0 ≡ ic.total_entries + 1
  pub adds : AddsEntry ic r.1 l r.0 (record { parent_id = parent; value = b })
  pub blobs : (v : Bytes) → as_blob r.1 v ≡ as_blob ic v

pub insert_value-OneBlock :
    (ic : Collection) (l parent : ℕ) (b : Bytes)
    → ic.total_entries + 1 < 2 ^ 64
    → OneBlock ic l parent b (insert_value ic l parent b)
unfolding insert_value next_id
insert_value-OneBlock ic l parent b room =
    let id = increment ic.total_entries in
    let uv : UniqueValue = record { parent_id = parent; value = b } in
    let numbered = record ic { total_entries = id } in
    let q = queue_record numbered (λ p. add_entry p (pos l) id uv) in
    let s = queue_record-SameIndex numbered (λ p. add_entry p (pos l) id uv) in
    record {
      fresh = increment_small ic.total_entries room;
      adds = written-AddsEntry ic q l id uv s;
      blobs = as_blob-written ic q l id uv s;
    }
