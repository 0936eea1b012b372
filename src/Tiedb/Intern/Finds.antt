-- ===== src/Tiedb/Intern/Finds.antt =====
-- The lookup of a value as a function of the tables alone.
use tie.Prelude.{
  ℕ, suc, ◌≡◌, refl, ap, ◌∙◌, Option, none, some, List, [], ◌∷◌, Option-cases, inl, inr,
}
use tie.Prelude.Int.{ℤ, pos}
use tie.Tiedb.Triples.{Bytes, UniqueValue, hash_level}
use tie.Tiedb.LockedTree
use tie.Tiedb.Collection.{Collection, EntryLevel, unique_value_eq, secure_level_in_index, level_at}
use tie.Tiedb.Collection.Trees.{at_level}
use tie.Tiedb.Intern.{blocks, as_blob, hash_id, value_exists, find_blocks, get_entry_from_string}
use tie.Tiedb.Intern.Lookups.{value_at, secure-SameTables}
use tie.Tiedb.Intern.Unchanged.{Unchanged, value_exists-Unchanged}

-- The id and the level at the end of a path of blocks.
abbrev pub find_from : Collection → ℕ → ℕ → ℕ → List Bytes → Option (ℕ × ℤ)
find_from ic last level i [] = some (last, pos level)
find_from ic last level i (b ∷ bs) = elim (value_at ic i (record { parent_id = last; value = b })) [
  | none ↦ none
  | some id ↦ find_from ic id i (suc i) bs
]

abbrev pub whole_id : Option ℕ → Option (ℕ × ℤ)
whole_id none = none
whole_id (some id) = some (id, hash_level)

-- The id and the level that a value has in the tables.
abbrev pub find : Collection → Bytes → Option (ℕ × ℤ)
find ic value = elim (as_blob ic value) [
  | some raw ↦ whole_id (hash_id ic raw)
  | none ↦ find_from ic 0 0 0 (blocks value)
]

by_level :
    (uv : UniqueValue) (o : Option EntryLevel)
    → elim o as (λ _. Option ℕ) [ none ↦ none | some lvl ↦ LockedTree.get lvl.unique_values uv ]
      ≡ at_level o (λ lvl. LockedTree.get lvl.unique_values uv)
by_level uv none = refl
by_level uv (some lvl) = refl

pub value_exists-answer :
    (ic : Collection) (l parent : ℕ) (b : Bytes)
    → (value_exists ic l parent b).1 ≡ value_at ic l (record { parent_id = parent; value = b })
unfolding value_exists level_at
value_exists-answer ic l parent b =
    by_level (record { parent_id = parent; value = b })
      (level_at (secure_level_in_index ic l) (pos l))
    ∙ (secure-SameTables ic l).values l (record { parent_id = parent; value = b })

-- The rest of a path by an equal answer.
pub same_step :
    {A B : Type 0} {f g : A → Option B} (o p : Option A)
    → o ≡ p
    → ((a : A) → f a ≡ g a)
    → elim o as (λ _. Option B) [ none ↦ none | some a ↦ f a ]
      ≡ elim p as (λ _. Option B) [ none ↦ none | some a ↦ g a ]
same_step {A} {B} {f} {g} o p e h =
    ap (λ (q : Option A). elim q as (λ _. Option B) [ none ↦ none | some a ↦ f a ]) e ∙ branches p
  where
    branches :
        (q : Option A)
        → elim q as (λ _. Option B) [ none ↦ none | some a ↦ f a ]
          ≡ elim q as (λ _. Option B) [ none ↦ none | some a ↦ g a ]
    branches none = refl
    branches (some a) = h a

answer_step :
    {A B : Type 0} {g : A → Option B} (o : Option A) (stop : Collection)
    (next : A → Collection × Option B)
    → ((a : A) → (next a).1 ≡ g a)
    → (elim o as (λ _. Collection × Option B) [ none ↦ (stop, none) | some a ↦ next a ]).1
      ≡ elim o as (λ _. Option B) [ none ↦ none | some a ↦ g a ]
answer_step none stop next h = refl
answer_step (some a) stop next h = h a

find_from-Unchanged :
    (after before : Collection) (last level i : ℕ) (bs : List Bytes)
    → Unchanged after before
    → find_from after last level i bs ≡ find_from before last level i bs
find_from-Unchanged after before last level i [] h = refl
find_from-Unchanged after before last level i (b ∷ bs) h =
    same_step _ _ (h.tables.values i (record { parent_id = last; value = b }))
      (λ id. find_from-Unchanged after before id i (suc i) bs h)

find_blocks-find :
    (ic : Collection) (last level i : ℕ) (bs : List Bytes)
    → (find_blocks ic last level i bs).1 ≡ find_from ic last level i bs
unfolding find_blocks
find_blocks-find ic last level i [] = refl
find_blocks-find ic last level i (b ∷ bs) =
    answer_step (value_exists ic i last b).1 (value_exists ic i last b).0 _ (λ id.
      find_blocks-find (value_exists ic i last b).0 id i (suc i) bs
      ∙ find_from-Unchanged (value_exists ic i last b).0 ic id i (suc i) bs
          (value_exists-Unchanged ic i last b))
    ∙ same_step _ _ (value_exists-answer ic i last b) (λ id. refl)

by_id :
    (raw : Bytes) (o : Option ℕ)
    → elim o as (λ _. Option (ℕ × ℤ)) [ none ↦ none | some id ↦ some (id, hash_level) ] ≡ whole_id o
by_id raw none = refl
by_id raw (some id) = refl

-- The code's lookup answers by the tables.
pub get_entry_from_string-find :
    (ic : Collection) (value : Bytes) → (get_entry_from_string ic value).1 ≡ find ic value
unfolding get_entry_from_string
get_entry_from_string-find ic value = elim (Option-cases (as_blob ic value)) [
  | inl plain ↦ rw (plain, get_entry_from_string, find) (find_blocks-find ic 0 0 0 (blocks value))
  | inr (raw, whole) ↦ rw (whole, get_entry_from_string, find) (by_id raw (hash_id ic raw))
]

pub as_blob-Unchanged :
    (after before : Collection) (value : Bytes)
    → Unchanged after before
    → as_blob after value ≡ as_blob before value
unfolding as_blob
as_blob-Unchanged after before value h = ap (λ (c : Collection). as_blob c value) h.others

pub hash_id-Unchanged :
    (after before : Collection) (raw : Bytes)
    → Unchanged after before
    → hash_id after raw ≡ hash_id before raw
unfolding hash_id
hash_id-Unchanged after before raw h = ap (λ (c : Collection). hash_id c raw) h.others

-- What a value is found as depends on the tables only.
pub find-Unchanged :
    (after before : Collection) (value : Bytes)
    → Unchanged after before
    → find after value ≡ find before value
find-Unchanged after before value h = elim (Option-cases (as_blob before value)) [
  | inl plain ↦
      rw (as_blob-Unchanged after before value h, plain, find)
        (find_from-Unchanged after before 0 0 0 (blocks value) h)
  | inr (raw, whole) ↦
      rw (as_blob-Unchanged after before value h, whole, find)
        (ap whole_id (hash_id-Unchanged after before raw h))
]

pub find-plain :
    (ic : Collection) (v : Bytes) → as_blob ic v ≡ none → find ic v ≡ find_from ic 0 0 0 (blocks v)
find-plain ic v plain = rw (plain, find) refl
