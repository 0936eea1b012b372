-- ===== src/Tiedb/Collection/Trees.antt =====
-- What a lookup through the levels finds, after levels are appended and after one is changed.
use tie.Prelude.{
  ℕ, zero, suc, ◌-◌, ◌<◌, ◌≡◌, refl, Option, none, some, List, [], ◌∷◌, ◌++◌, arith, if◌then◌else◌,
  length, get_elem?, set, replicate, length-append, length-replicate, nat_beq,
}
use tie.Prelude.Int.{pos}
use tie.Tiedb.Collection.{
  Collection, EntryLevel, new_entry_level, secure_level_in_index, write_level,
}

-- A lookup `f` in the level at an index; out of range it finds nothing.
abbrev pub at_level : {A : Type 0} → Option EntryLevel → (EntryLevel → Option A) → Option A
at_level none f = none
at_level (some lvl) f = f lvl

abbrev pub through : {A : Type 0} → (EntryLevel → Option A) → List EntryLevel → ℕ → Option A
through f levels i = at_level (get_elem? levels i) f

module _ {A : Type 0} (f : EntryLevel → Option A) where
  through-replicate :
      (n i : ℕ) → f new_entry_level ≡ none → through f (replicate n new_entry_level) i ≡ none
  through-replicate zero i e = refl
  through-replicate (suc n) zero e = e
  through-replicate (suc n) (suc i) e = through-replicate n i e

  pub through-append :
      (levels : List EntryLevel) (n i : ℕ)
      → f new_entry_level ≡ none
      → through f (levels ++ replicate n new_entry_level) i ≡ through f levels i
  through-append [] n i e = through-replicate n i e
  through-append (l ∷ levels) n zero e = refl
  through-append (l ∷ levels) n (suc i) e = through-append levels n i e

  pub through-set :
      (levels : List EntryLevel) (l : ℕ) (lvl : EntryLevel) (i : ℕ)
      → l < length levels
      → through f (set levels l lvl) i ≡ (if nat_beq l i then f lvl else through f levels i)
  through-set [] l lvl i h = absurd (omega arith)
  through-set (x ∷ levels) zero lvl zero h = refl
  through-set (x ∷ levels) zero lvl (suc i) h = ground arith
  through-set (x ∷ levels) (suc l) lvl zero h = ground arith
  through-set (x ∷ levels) (suc l) lvl (suc i) h = ground (arith, through-set levels l lvl i)

-- Appending empty levels changes no lookup.
pub through-secure :
    {A : Type 0} (f : EntryLevel → Option A) (ic : Collection) (l i : ℕ)
    → f new_entry_level ≡ none
    → through f (secure_level_in_index ic l).levels i ≡ through f ic.levels i
unfolding secure_level_in_index
through-secure f ic l i e = through-append f ic.levels (suc l - length ic.levels) i e

pub get_elem?-some :
    (levels : List EntryLevel) (l : ℕ)
    → l < length levels
    → (lvl : EntryLevel) × (get_elem? levels l ≡ some lvl)
get_elem?-some [] l h = absurd (omega arith)
get_elem?-some (x ∷ levels) zero h = (x, refl)
get_elem?-some (x ∷ levels) (suc l) h = get_elem?-some levels l (omega arith)

pub length-secure : (ic : Collection) (l : ℕ) → l < length (secure_level_in_index ic l).levels
unfolding secure_level_in_index
length-secure ic l = omega (
  arith,
  length-append {0} ic.levels (replicate (suc l - length ic.levels) new_entry_level),
  length-replicate {0} (suc l - length ic.levels) new_entry_level,
)

-- A change of a level that is there is seen by the lookups in that level only.
pub through-write_level :
    {A : Type 0} (f : EntryLevel → Option A) (ic : Collection) (l : ℕ) (lvl : EntryLevel)
    (change : EntryLevel → EntryLevel) (i : ℕ)
    → get_elem? ic.levels l ≡ some lvl
    → l < length ic.levels
    → through f (write_level ic (pos l) change).levels i
      ≡ (if nat_beq l i then f (change lvl) else through f ic.levels i)
unfolding write_level
through-write_level f ic l lvl change i e h =
    rw (e, write_level) (through-set f ic.levels l (change lvl) i h)
