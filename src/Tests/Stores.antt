-- ===== src/Tests/Stores.antt =====
-- Record slots and record frames on small inputs.
use tie.Prelude.{◌≡◌, some, [], ◌∷◌, length, replicate, if◌then◌else◌, arith}
use tie.Prelude.Int.{pos, negsuc, int_beq}
use tie.Tiedb.Triples.{UniqueValue, Triple}
use tie.Tiedb.Slots.{Arena, Freespace, arena_store, arena_load, alloc_slot, free_slot}
use tie.Tiedb.Slots.Reserves.{
  occurs, IsReserved, fresh-IsReserved, release, alloc_slot-IsReserved, free_slot-IsReserved,
  arena_load-store,
}
use tie.Tiedb.Records.{to_bytes, buf_to_association}
use tie.Tiedb.Records.RoundTrip.{IsStorable, buf_to_association-to_bytes}

abbrev likes : Triple
likes = record {
  level = pos 0;
  key = 1;
  value1_level = pos 0;
  value1 = 2;
  value2_level = negsuc 0;
  value2 = 3;
}

abbrev fresh_space : Freespace
fresh_space = record { free = []; db_size = 0 }

alloc_slot-IsReserved_example :
    IsReserved (alloc_slot fresh_space).1 ((alloc_slot fresh_space).0 ∷ [])
    × (occurs (alloc_slot fresh_space).0 [] ≡ 0)
alloc_slot-IsReserved_example = alloc_slot-IsReserved fresh_space [] fresh-IsReserved

abbrev one_slot : Freespace
one_slot = record { free = []; db_size = 50 }

one_slot-IsReserved : IsReserved one_slot (pos 0 ∷ [])
unfolding alloc_slot
one_slot-IsReserved = (alloc_slot-IsReserved fresh_space [] fresh-IsReserved).0

free_slot-IsReserved_example :
    IsReserved (free_slot one_slot (pos 0)) (release (pos 0) (pos 0 ∷ []))
    × (occurs (pos 0) (free_slot one_slot (pos 0)).free ≡ 1)
    × (alloc_slot (free_slot one_slot (pos 0)) ≡ (pos 0, one_slot))
free_slot-IsReserved_example =
    free_slot-IsReserved one_slot (pos 0) (pos 0 ∷ []) one_slot-IsReserved (omega arith)

abbrev holed_arena : Arena
holed_arena = record { slots = likes ∷ likes ∷ []; free = pos 1 ∷ [] }

arena_load-store_example : arena_load (arena_store holed_arena likes).1 (pos 0) ≡ (
    if int_beq (arena_store holed_arena likes).0 (pos 0)
    then some likes
    else arena_load holed_arena (pos 0))
arena_load-store_example = arena_load-store holed_arena likes (pos 0) (omega arith, tt)

abbrev block : UniqueValue
block = record { parent_id = 4; value = replicate 24 65 }

likes-IsStorable : IsStorable likes
likes-IsStorable = record {
  level = omega arith;
  key = omega arith;
  value1_level = omega arith;
  value1 = omega arith;
  value2_level = omega arith;
  value2 = omega arith;
}

buf_to_association-to_bytes_example :
    (buf_to_association (to_bytes likes) ≡ some likes) × (length (to_bytes likes) ≡ 50)
buf_to_association-to_bytes_example = buf_to_association-to_bytes likes likes-IsStorable
