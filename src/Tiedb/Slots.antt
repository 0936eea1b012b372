-- ===== src/Tiedb/Slots.antt =====
-- tiedb/slots.go: record slots, in the memory-mode arena and on disk.
pub mod Reserves
use tie.Prelude.{
  ℕ, zero, suc, ◌+◌, ◌≡◌, Bool, true, false, Option, none, some, List, [], ◌∷◌, ◌++◌, if◌then◌else◌,
  length, get_elem?, set,
}
use tie.Prelude.Int.{ℤ, pos, negsuc, is_negative}
use tie.Tiedb.Triples.{Triple}

abbrev pub entry_size : ℕ
entry_size = 50

-- The free lists are stacks: the last element of Go's slice is the head of the list here.
pub record Arena : Type 0 where
  pub slots : List Triple
  pub free : List ℤ

-- `db_size` is a file offset, and never negative.
pub record Freespace : Type 0 where
  pub free : List ℤ
  pub db_size : ℕ

-- ic.arena[pos] = a: out of range Go would panic; here nothing is written.
unfoldable pub write_slot : List Triple → ℤ → Triple → List Triple
write_slot slots (pos n) a = set slots n a
write_slot slots (negsuc n) a = slots

store_at : Arena → List ℤ → Triple → ℤ × Arena
store_at ar [] a = (pos (length ar.slots), record ar { slots = ar.slots ++ a ∷ [] })
store_at ar (p ∷ ps) a = (p, record { slots = write_slot ar.slots p a; free = ps })

unfoldable pub arena_store : Arena → Triple → ℤ × Arena
unfolding store_at write_slot
arena_store ar a = store_at ar ar.free a

unfoldable pub arena_load : Arena → ℤ → Option Triple
arena_load ar (pos n) = get_elem? ar.slots n
arena_load ar (negsuc n) = none

unfoldable pub arena_free_slot : Arena → ℤ → Arena
arena_free_slot ar p = if is_negative p then ar else record ar { free = p ∷ ar.free }

unfoldable pub free_slot : Freespace → ℤ → Freespace
free_slot fs p = if is_negative p then fs else record fs { free = p ∷ fs.free }

alloc_at : Freespace → List ℤ → ℤ × Freespace
alloc_at fs [] = (pos fs.db_size, record fs { db_size = fs.db_size + entry_size })
alloc_at fs (p ∷ ps) = (p, record fs { free = ps })

unfoldable pub alloc_slot : Freespace → ℤ × Freespace
unfolding alloc_at
alloc_slot fs = alloc_at fs fs.free
