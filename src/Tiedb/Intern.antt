-- ===== src/Tiedb/Intern.antt =====
-- tiedb/intern.go: values are stored once, as chains of 24-byte blocks, one level for each block;
-- content addresses are stored whole.
pub mod Blocks
pub mod Lookups
pub mod Interned
pub mod Unchanged
pub mod Finds
pub mod Inserts
pub mod Paths
pub mod Inserted
pub mod Texts
use tie.Prelude.{
  ℕ, zero, suc, ◌+◌, ◌-◌, ◌/◌, ◌%◌, Bool, true, false, Option, none, some, List, [], ◌∷◌, ◌++◌,
  if◌then◌else◌, length, take, drop, replicate, nat_eq, nat_beq, list_eq, ltb, leb,
}
use tie.Prelude.Int.{ℤ, pos, negsuc, int_beq}
use tie.Tiedb.Triples.{Bytes, UniqueValue, Triple, hash_level}
use tie.Tiedb.LockedTree
use tie.Tiedb.LockedTree.{LockedTree}
use tie.Tiedb.Slots.{alloc_slot}
use tie.Tiedb.Collection.{
  Collection, EntryLevel, BlobPolicy, FileMod, unique_value_eq, secure_int_level, add_entry,
  add_hash, increment, secure_level_in_index, level_at, write_level, queue_write,
}

abbrev pub size_value : ℕ
size_value = 24

unfoldable pub next_id : Collection → ℕ × Collection
next_id ic = (increment ic.total_entries, record ic { total_entries = increment ic.total_entries })

-- The counter becomes the maximum of itself and the id.
unfoldable pub bump_total_entries : Collection → ℕ → Collection
bump_total_entries ic id = if leb id ic.total_entries then ic else record ic { total_entries = id }

unfoldable pub as_blob : Collection → Bytes → Option Bytes
as_blob ic value = elim ic.blob_policy [
  | none ↦ none
  | some p ↦ elim (p.encode value) [
    | none ↦ none
    | some raw ↦ if nat_beq (length raw) 32 then some raw else none
  ]
]

-- A nil tree would panic; a policy comes with its trees.
unfoldable pub hash_id : Collection → Bytes → Option ℕ
hash_id ic raw = elim ic.hash_values [ none ↦ none | some t ↦ LockedTree.get t raw ]

unfoldable pub store_hash : Collection → ℕ → Bytes → Collection
store_hash ic id raw = record ic {
  hash_entries = elim ic.hash_entries [ none ↦ none | some t ↦ some (LockedTree.put t id raw) ];
  hash_values = elim ic.hash_values [ none ↦ none | some t ↦ some (LockedTree.put t raw id) ];
}

-- A slot is reserved and the write is queued in disk mode only; the result of the send is not
-- looked at.
abbrev pub queue_record : Collection → (ℤ → FileMod) → Collection
queue_record ic m =
    if ic.write_to_disk
    then (let r = alloc_slot ic.freespace in
        (queue_write (record ic { freespace = r.1 }) (m r.0)).0)
    else ic

unfoldable pub insert_hash : Collection → Bytes → ℕ × Collection
unfolding hash_id store_hash
insert_hash ic raw = elim (hash_id ic raw) [
  | some id ↦ (id, ic)
  | none ↦
      let (id, ic1) = next_id ic in
      (id, queue_record (store_hash ic1 id raw) (λ p. add_hash p id raw))
]

unfoldable pub load_hash : Collection → ℕ → Bytes → Collection
load_hash ic id raw = store_hash (bump_total_entries ic id) id raw

unfoldable pub value_exists : Collection → ℕ → ℕ → Bytes → Collection × Option ℕ
value_exists ic level parent_id value =
    let ic1 = secure_level_in_index ic level in
    (
      ic1,
      elim (level_at ic1 (pos level)) [
        | none ↦ none
        | some lvl ↦
            LockedTree.get lvl.unique_values (record { parent_id = parent_id; value = value })
      ],
    )

unfoldable pub insert_entry : Collection → ℤ → ℕ → UniqueValue → Collection
insert_entry ic level id uv = write_level (secure_int_level ic level) level (λ lvl. record lvl {
  entries = LockedTree.put lvl.entries id uv;
  unique_values = LockedTree.put lvl.unique_values uv id;
})

unfoldable pub insert_value : Collection → ℕ → ℕ → Bytes → ℕ × Collection
insert_value ic level parent_id value =
    let (id, ic1) = next_id ic in
    let uv : UniqueValue = record { parent_id = parent_id; value = value } in
    (id, insert_entry (queue_record ic1 (λ p. add_entry p (pos level) id uv)) (pos level) id uv)

-- The value padded by NULs; a value of whole blocks gets a full extra one.
unfoldable pub pad : Bytes → Bytes
pad value = value ++ replicate (size_value - length value % size_value) 0

unfoldable pub chunks : ℕ → Bytes → List Bytes
chunks zero b = []
chunks (suc n) b = take size_value b ∷ chunks n (drop size_value b)

unfoldable pub blocks : Bytes → List Bytes
unfolding pad chunks
blocks value = chunks (length (pad value) / size_value) (pad value)

-- The loop over the blocks: `check` is `checkExistance`, `i` the level of the next block.
unfoldable pub insert_blocks : Collection → Bool → ℕ → ℕ → ℕ → List Bytes → Collection × ℕ × ℕ
insert_blocks ic check last_parent_id level i [] = (ic, last_parent_id, level)
insert_blocks ic check last_parent_id level i (b ∷ bs) =
    let r = if check then value_exists ic i last_parent_id b else (ic, none) in
    elim r.1 [
      | some tmp ↦ insert_blocks r.0 true tmp i (suc i) bs
      | none ↦
          let w = insert_value r.0 i last_parent_id b in insert_blocks w.1 false w.0 i (suc i) bs
    ]

-- insertLocked: the id and the level of the value, and the collection.
unfoldable pub insert : Collection → Bytes → Collection × ℕ × ℤ
insert ic value = elim (as_blob ic value) [
  | some raw ↦ let (id, ic1) = insert_hash ic raw in (ic1, id, hash_level)
  | none ↦ let (ic1, id, level) = insert_blocks ic true 0 0 0 (blocks value) in (ic1, id, pos level)
]

unfoldable pub find_blocks : Collection → ℕ → ℕ → ℕ → List Bytes → Collection × Option (ℕ × ℤ)
find_blocks ic last_parent_id level i [] = (ic, some (last_parent_id, pos level))
find_blocks ic last_parent_id level i (b ∷ bs) =
    let r = value_exists ic i last_parent_id b in
    elim r.1 [ some tmp ↦ find_blocks r.0 tmp i (suc i) bs | none ↦ (r.0, none) ]

-- getEntryFromString; looking a value up may append empty levels.
unfoldable pub get_entry_from_string : Collection → Bytes → Collection × Option (ℕ × ℤ)
get_entry_from_string ic value = elim (as_blob ic value) [
  | some raw ↦ (ic, elim (hash_id ic raw) [ none ↦ none | some id ↦ some (id, hash_level) ])
  | none ↦ find_blocks ic 0 0 0 (blocks value)
]

unfoldable pub get_unique_value : Collection → ℕ → ℕ → Option UniqueValue
get_unique_value ic level id = elim (level_at ic (pos level)) [
  | none ↦ none
  | some lvl ↦ LockedTree.get lvl.entries id
]

-- The entries of a value from its last block to its first.
unfoldable pub chain : Collection → ℕ → ℕ → Option (List UniqueValue)
chain ic zero id = elim (get_unique_value ic 0 id) [ none ↦ none | some uv ↦ some (uv ∷ []) ]
chain ic (suc l) id = elim (get_unique_value ic (suc l) id) [
  | none ↦ none
  | some uv ↦ elim (chain ic l uv.parent_id) [ none ↦ none | some uvs ↦ some (uv ∷ uvs) ]
]

-- The blocks of a chain, copied from the last entry of the chain to its first.
unfoldable pub assemble : List UniqueValue → Bytes
assemble [] = []
assemble (uv ∷ uvs) = assemble uvs ++ uv.value

unfoldable pub get_value : Collection → ℤ → ℕ → Option Bytes
get_value ic (negsuc l) id = some []
get_value ic (pos l) id = elim (chain ic l id) [ none ↦ none | some uvs ↦ some (assemble uvs) ]

-- bytes.TrimRight(value, "\x00")
unfoldable pub trim_right : Bytes → Bytes
trim_right [] = []
trim_right (b ∷ bs) = elim (trim_right bs) [
  | [] ↦ if nat_beq b 0 then [] else b ∷ []
  | x ∷ xs ↦ b ∷ x ∷ xs
]

-- The text of an entry; of a dangling one, the empty string.
unfoldable pub get_value_string : Collection → ℤ → ℕ → Bytes
unfolding trim_right
get_value_string ic level id =
    if int_beq level hash_level
    then (elim ic.hash_entries [
      | none ↦ []
      | some t ↦ elim (LockedTree.get t id) [
        | none ↦ []
        | some raw ↦ elim ic.blob_policy [ none ↦ [] | some p ↦ p.decode raw ]
      ]
    ])
    else elim (get_value ic level id) [ none ↦ [] | some b ↦ trim_right b ]
