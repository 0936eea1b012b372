-- ===== src/Tiedb/AssociationSet/Slices.antt =====
-- The slice of the small tier: the in-place update and the swap-remove, against map laws.
use tie.Prelude.{
  ℕ, zero, suc, ◌-◌, ◌≤◌, ◌≡◌, refl, none, some, List, [], ◌∷◌, ◌++◌, arith, if◌then◌else◌, ◌==◌,
  is_some, length, get_elem?, set, take, length-take-le, Option-cases, inl, inr,
}
use tie.Prelude.GoMap
use tie.Prelude.Int.{ℤ}
use tie.Tiedb.AssociationSet.{
  UniqueAssociation, association_eq, association_beq_iff, AssocEntry, overwrite, index_of,
  swap_remove,
}

abbrev pub IsSlice : List AssocEntry → Type 0
IsSlice es = GoMap.Distinct es

-- The update in place, where the key is found, is a write to the map.
pub overwrite-eq-put :
    (es : List AssocEntry) (k : UniqueAssociation) (v : ℤ)
    → overwrite es k v ≡ (if is_some (GoMap.get es k) then some (GoMap.put es k v) else none)
unfolding overwrite GoMap.get GoMap.put
overwrite-eq-put [] k v = refl
overwrite-eq-put ((i, p) ∷ es) k v =
    ground (arith, association_beq_iff i k, overwrite-eq-put es k v)

-- Where it is not found, the append is.
pub append-eq-put :
    (es : List AssocEntry) (k : UniqueAssociation) (v : ℤ)
    → GoMap.get es k ≡ none
    → es ++ (k, v) ∷ [] ≡ GoMap.put es k v
unfolding GoMap.get GoMap.put
append-eq-put [] k v h = refl
append-eq-put ((i, p) ∷ es) k v h = ground (arith, association_beq_iff i k, append-eq-put es k v)

init_of : List AssocEntry → List AssocEntry
init_of [] = []
init_of (e ∷ []) = []
init_of (e ∷ f ∷ es) = e ∷ init_of (f ∷ es)

last_of : AssocEntry → List AssocEntry → AssocEntry
last_of e [] = e
last_of e (f ∷ es) = last_of f es

take-init : (e : AssocEntry) (es : List AssocEntry) → take (length es) (e ∷ es) ≡ init_of (e ∷ es)
unfolding init_of
take-init e [] = refl
take-init e (f ∷ es) = ground (arith, take-init f es)

get_elem?-last :
    (e : AssocEntry) (es : List AssocEntry) → get_elem? (e ∷ es) (length es) ≡ some (last_of e es)
unfolding last_of
get_elem?-last e [] = refl
get_elem?-last e (f ∷ es) = get_elem?-last f es

-- The list after the swap-remove, by recursion.
removed : List AssocEntry → ℕ → List AssocEntry
removed [] i = []
removed (e ∷ []) zero = []
removed (e ∷ f ∷ es) zero = last_of f es ∷ init_of (f ∷ es)
removed (e ∷ es) (suc i) = e ∷ removed es i

take-set-removed :
    (e : AssocEntry) (es : List AssocEntry) (i : ℕ)
    → i ≤ length es
    → take (length es) (set (e ∷ es) i (last_of e es)) ≡ removed (e ∷ es) i
unfolding removed last_of init_of
take-set-removed e [] zero h = refl
take-set-removed e (f ∷ es) zero h = ground (arith, take-init f es)
take-set-removed e [] (suc i) h = absurd (omega arith)
take-set-removed e (f ∷ es) (suc i) h = ground (arith, take-set-removed f es i)

swap_remove-removed :
    (e : AssocEntry) (es : List AssocEntry) (i : ℕ)
    → i ≤ length es
    → swap_remove (e ∷ es) i ≡ removed (e ∷ es) i
unfolding swap_remove
swap_remove-removed e es i h = ground (arith, get_elem?-last e es, take-set-removed e es i)

-- The last entry put in front of the others is the same map.
get-last-init :
    (e : AssocEntry) (es : List AssocEntry) (k : UniqueAssociation)
    → GoMap.Distinct (e ∷ es)
    → GoMap.get (last_of e es ∷ init_of (e ∷ es)) k ≡ GoMap.get (e ∷ es) k
unfolding last_of init_of GoMap.get
get-last-init e [] k d = refl
get-last-init (i, p) ((j, q) ∷ es) k d = ground (
  arith,
  get-last-init (j, q) es k,
  get-last-init (j, q) es i,
  association_beq_iff i k,
  association_beq_iff (last_of (j, q) es).0 k,
  association_beq_iff (last_of (j, q) es).0 i,
)

last-init-Distinct :
    (e : AssocEntry) (es : List AssocEntry)
    → GoMap.Distinct (e ∷ es)
    → GoMap.Distinct (last_of e es ∷ init_of (e ∷ es))
unfolding last_of init_of GoMap.get
last-init-Distinct (i, p) [] d = (refl, tt)
last-init-Distinct (i, p) ((j, q) ∷ es) d = ground (
  arith,
  last-init-Distinct (j, q) es,
  get-last-init (j, q) es i,
  association_beq_iff i (last_of (j, q) es).0,
  association_beq_iff (last_of (j, q) es).0 i,
)

index_of-le :
    (es : List AssocEntry) (k : UniqueAssociation) (i : ℕ)
    → index_of es k ≡ some i
    → suc i ≤ length es
unfolding index_of
index_of-le [] k i h = cc
index_of-le ((j, p) ∷ es) k zero h = omega arith
index_of-le ((j, p) ∷ es) k (suc i) h = ground (arith, index_of-le es k i)

pub index_of-none :
    (es : List AssocEntry) (k : UniqueAssociation) → index_of es k ≡ none → GoMap.get es k ≡ none
unfolding index_of GoMap.get
index_of-none [] k h = refl
index_of-none ((j, p) ∷ es) k h = ground (arith, index_of-none es k)

-- The swap-remove at the key's index is the map without the key.
get-removed :
    (es : List AssocEntry) (k : UniqueAssociation) (i : ℕ) (j : UniqueAssociation)
    → GoMap.Distinct es
    → index_of es k ≡ some i
    → GoMap.get (removed es i) j ≡ (if k == j then none else GoMap.get es j)
unfolding index_of removed GoMap.get
get-removed [] k i j d h = cc
get-removed ((a, p) ∷ []) k zero j d h =
    ground (arith, association_beq_iff a k, association_beq_iff a j, association_beq_iff k j)
get-removed ((a, p) ∷ []) k (suc i) j d h = ground arith
get-removed ((a, p) ∷ (b, q) ∷ es) k zero j d h = ground (
  arith,
  association_beq_iff a k,
  association_beq_iff a j,
  association_beq_iff k j,
  get-last-init (b, q) es j,
)
get-removed ((a, p) ∷ (b, q) ∷ es) k (suc i) j d h = ground (
  arith,
  association_beq_iff a k,
  association_beq_iff a j,
  association_beq_iff k j,
  get-removed ((b, q) ∷ es) k i j,
)

removed-Distinct :
    (es : List AssocEntry) (k : UniqueAssociation) (i : ℕ)
    → GoMap.Distinct es
    → index_of es k ≡ some i
    → GoMap.Distinct (removed es i)
unfolding index_of removed
removed-Distinct [] k i d h = cc
removed-Distinct ((a, p) ∷ []) k zero d h = tt
removed-Distinct ((a, p) ∷ []) k (suc i) d h = ground arith
removed-Distinct ((a, p) ∷ (b, q) ∷ es) k zero d h = last-init-Distinct (b, q) es d.1
removed-Distinct ((a, p) ∷ (b, q) ∷ es) k (suc i) d h =
    ground (arith, removed-Distinct ((b, q) ∷ es) k i, get-removed ((b, q) ∷ es) k i a)

swap-cases :
    (es : List AssocEntry) (k : UniqueAssociation) (i : ℕ)
    → index_of es k ≡ some i
    → swap_remove es i ≡ removed es i
unfolding index_of
swap-cases [] k i h = cc
swap-cases (e ∷ es) k i h = swap_remove-removed e es i (omega (arith, index_of-le (e ∷ es) k i h))

-- The swap-remove at the index of a key deletes that key's entry and no other.
pub get-swap_remove :
    (es : List AssocEntry) (k : UniqueAssociation) (i : ℕ) (j : UniqueAssociation)
    → GoMap.Distinct es
    → index_of es k ≡ some i
    → GoMap.get (swap_remove es i) j ≡ (if k == j then none else GoMap.get es j)
get-swap_remove es k i j d h = rw (swap-cases es k i h) (get-removed es k i j d h)

pub swap_remove-Distinct :
    (es : List AssocEntry) (k : UniqueAssociation) (i : ℕ)
    → GoMap.Distinct es
    → index_of es k ≡ some i
    → GoMap.Distinct (swap_remove es i)
swap_remove-Distinct es k i d h = rw (swap-cases es k i h) (removed-Distinct es k i d h)

pub length-swap_remove-le : (es : List AssocEntry) (i : ℕ) → length (swap_remove es i) ≤ length es
unfolding swap_remove
length-swap_remove-le es i = elim (Option-cases (get_elem? es (length es - 1))) [
  | inl e ↦ ground arith
  | inr (x, e) ↦ ground (arith, length-take-le (length es - 1) (set es i x))
]
