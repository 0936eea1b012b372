-- ===== src/Tiedb/Slots/Reserves.antt =====
-- No slot is handed out twice, and holes are filled before the file grows.
use tie.Prelude.{
  ℕ, zero, suc, ◌+◌, ◌%◌, ◌≤◌, ◌<◌, ◌≡◌, refl, some, List, [], ◌∷◌, ◌++◌, arith, if◌then◌else◌, ◌*◌,
  nat_beq, length, get_elem?, set, Bool-cases, inl, inr,
}
use tie.Prelude.Int.{ℤ, pos, negsuc, int_eq, int_beq, int_beq_iff}
use mathlib.Core.Path.{subst}
use tie.Tiedb.Triples.{Triple}
use tie.Tiedb.Slots.{
  Arena, Freespace, entry_size, write_slot, store_at, arena_store, arena_load, free_slot, alloc_at,
  alloc_slot,
}

abbrev pub occurs : ℤ → List ℤ → ℕ
occurs p [] = 0
occurs p (q ∷ qs) = (if int_beq q p then 1 else 0) + occurs p qs

-- A whole record below the end of the file.
abbrev pub IsSlot : ℕ → ℤ → Type 0
IsSlot db_size (pos n) = (n + entry_size ≤ db_size) × (n % entry_size ≡ 0)
IsSlot db_size (negsuc n) = ⊥

-- `live` are the offsets that were handed out and not freed since.
pub record IsReserved (fs : Freespace) (live : List ℤ) : Type 0 where
  pub aligned : fs.db_size % entry_size ≡ 0
  pub once : (p : ℤ) → occurs p fs.free + occurs p live ≤ 1
  pub slots : (p : ℤ) → 0 < occurs p fs.free + occurs p live → IsSlot fs.db_size p

pub fresh-IsReserved : IsReserved (record { free = []; db_size = 0 }) []
fresh-IsReserved = record { aligned = refl; once = λ p. omega arith; slots = λ p h. elim h [ ] }

-- The first occurrence is dropped.
abbrev pub release : ℤ → List ℤ → List ℤ
release p [] = []
release p (q ∷ qs) = if int_beq q p then qs else q ∷ release p qs

occurs-release :
    (p q : ℤ) (live : List ℤ)
    → 0 < occurs p live
    → occurs q live ≡ occurs q (release p live) + (if int_beq p q then 1 else 0)
occurs-release p q [] h = absurd (omega arith)
occurs-release p q (r ∷ live) h =
    ground (arith, int_beq_iff r p, int_beq_iff r q, int_beq_iff p q, occurs-release p q live)

IsSlot-grows : (n : ℕ) (p : ℤ) → IsSlot n p → IsSlot (n + entry_size) p
IsSlot-grows n (pos m) h = (omega arith, h.1)
IsSlot-grows n (negsuc m) h = h

-- The end of the file is no slot that is in use.
end_unused :
    (n m : ℕ) (live : List ℤ)
    → occurs (pos n) live ≡ m
    → ((p : ℤ) → 0 < 0 + occurs p live → IsSlot n p)
    → m ≡ 0
end_unused n zero live e slots = refl
end_unused n (suc m) live e slots = absurd (omega (arith, slots (pos n) (omega arith)))

end_or_old :
    (n : ℕ) (live : List ℤ) (p : ℤ)
    → n % entry_size ≡ 0
    → ((q : ℤ) → 0 < 0 + occurs q live → IsSlot n q)
    → 0 < 0 + ((if int_beq (pos n) p then 1 else 0) + occurs p live)
    → IsSlot (n + entry_size) p
end_or_old n live p even slots h = elim (Bool-cases (int_beq (pos n) p)) [
  | inl here ↦ subst (IsSlot (n + entry_size)) ((int_beq_iff (pos n) p).0 here) (omega arith, even)
  | inr there ↦ IsSlot-grows n p (slots p (ground (arith, there, h)))
]

alloc_at-IsReserved :
    (free : List ℤ) (n : ℕ) (live : List ℤ)
    → IsReserved (record { free = free; db_size = n }) live
    → IsReserved
        (alloc_at (record { free = free; db_size = n }) free).1
        ((alloc_at (record { free = free; db_size = n }) free).0 ∷ live)
unfolding alloc_at
alloc_at-IsReserved [] n live h = record {
  aligned = let a = h.aligned in omega arith;
  once = λ p. ground (
    arith,
    h.once p,
    int_beq_iff (pos n) p,
    end_unused n (occurs (pos n) live) live refl h.slots,
  );
  slots = λ p q. end_or_old n live p h.aligned h.slots q;
}
alloc_at-IsReserved (f ∷ free) n live h = record {
  aligned = h.aligned;
  once = λ p. omega (arith, h.once p);
  slots = λ p q. h.slots p (omega arith);
}

-- Where free and live slots are apart, aligned and below the end of the file, a handed-out slot
-- was not live, and the same holds with it among the live ones.
pub alloc_slot-IsReserved :
    (fs : Freespace) (live : List ℤ)
    → IsReserved fs live
    → IsReserved (alloc_slot fs).1 ((alloc_slot fs).0 ∷ live) × (occurs (alloc_slot fs).0 live ≡ 0)
unfolding alloc_slot
alloc_slot-IsReserved fs live h =
    let r = alloc_at-IsReserved fs.free fs.db_size live h in (r, alloc_unused r)
  where
    alloc_unused : {gs : Freespace} {p : ℤ} → IsReserved gs (p ∷ live) → occurs p live ≡ 0
    alloc_unused {gs} {p} r = ground (arith, r.once p, int_beq_iff p p)

-- Where free and live slots are apart, aligned and below the end of the file, a live slot that
-- is freed leaves the live ones, becomes free once, and the same holds; it is the slot that the next
-- allocation hands out, and that allocation restores the free slots and the end of the file.
pub free_slot-IsReserved :
    (fs : Freespace) (p : ℤ) (live : List ℤ)
    → IsReserved fs live
    → 0 < occurs p live
    → IsReserved (free_slot fs p) (release p live)
      × (occurs p (free_slot fs p).free ≡ 1)
      × (alloc_slot (free_slot fs p) ≡ (p, fs))
free_slot-IsReserved fs (negsuc n) live h l = elim (h.slots (negsuc n) (omega arith)) [ ]
free_slot-IsReserved fs (pos n) live h l =
    unfold free_slot in
    (
      record {
        aligned = h.aligned;
        once = λ q. ground (arith, h.once q, occurs-release (pos n) q live l);
        slots = λ q g. h.slots q (ground (arith, occurs-release (pos n) q live l));
      },
      ground (arith, h.once (pos n), int_beq_iff (pos n) (pos n)),
      unfold alloc_slot alloc_at in refl,
    )

holes_first :
    (free : List ℤ) (n : ℕ)
    → (alloc_at (record { free = free; db_size = n }) free).1.db_size + 50 * length free
      ≤ n + 50 * (length (alloc_at (record { free = free; db_size = n }) free).1.free + 1)
unfolding alloc_at
holes_first [] n = omega arith
holes_first (p ∷ ps) n = omega arith

-- The free slots lie below the end of the arena.
abbrev pub InRange : List Triple → List ℤ → Type 0
InRange slots [] = Unit
InRange slots (pos n ∷ ps) = (n < length slots) × InRange slots ps
InRange slots (negsuc n ∷ ps) = ⊥

get_elem?-set :
    (xs : List Triple) (i : ℕ) (v : Triple) (j : ℕ)
    → i < length xs
    → get_elem? (set xs i v) j ≡ (if nat_beq i j then some v else get_elem? xs j)
get_elem?-set [] i v j h = absurd (omega arith)
get_elem?-set (x ∷ xs) zero v zero h = refl
get_elem?-set (x ∷ xs) zero v (suc j) h = ground arith
get_elem?-set (x ∷ xs) (suc i) v zero h = ground arith
get_elem?-set (x ∷ xs) (suc i) v (suc j) h = ground (arith, get_elem?-set xs i v j)

get_elem?-append :
    (xs : List Triple) (v : Triple) (j : ℕ)
    → get_elem? (xs ++ v ∷ []) j ≡ (if nat_beq (length xs) j then some v else get_elem? xs j)
get_elem?-append [] v zero = refl
get_elem?-append [] v (suc j) = ground arith
get_elem?-append (x ∷ xs) v zero = ground arith
get_elem?-append (x ∷ xs) v (suc j) = ground (arith, get_elem?-append xs v j)

load-store_at :
    (slots : List Triple) (whole free : List ℤ) (a : Triple) (q : ℤ)
    → InRange slots free
    → arena_load (store_at (record { slots = slots; free = whole }) free a).1 q ≡ (
        if int_beq (store_at (record { slots = slots; free = whole }) free a).0 q
        then some a
        else arena_load (record { slots = slots; free = whole }) q)
unfolding store_at arena_load
load-store_at slots whole [] a (pos n) h = get_elem?-append slots a n
load-store_at slots whole [] a (negsuc n) h = refl
load-store_at slots whole (pos m ∷ free) a (pos n) h =
    unfold write_slot in get_elem?-set slots m a n h.0
load-store_at slots whole (pos m ∷ free) a (negsuc n) h = refl
load-store_at slots whole (negsuc m ∷ free) a q h = elim h [ ]

-- Where the free slots are in range, a triple stored in the arena is what a load at its position
-- returns, and what every other position holds is unchanged.
pub arena_load-store :
    (ar : Arena) (a : Triple) (q : ℤ)
    → InRange ar.slots ar.free
    → arena_load (arena_store ar a).1 q
      ≡ (if int_beq (arena_store ar a).0 q then some a else arena_load ar q)
unfolding arena_store
arena_load-store ar a q h = load-store_at ar.slots ar.free ar.free a q h
