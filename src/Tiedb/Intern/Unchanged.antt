-- ===== src/Tiedb/Intern/Unchanged.antt =====
-- Looking a value up changes nothing but the number of empty levels.
use tie.Prelude.{ℕ, suc, ◌≡◌, refl, ◌∙◌, Option, none, some, List, [], ◌∷◌, Option-cases, inl, inr}
use tie.Tiedb.Triples.{Bytes}
use tie.Tiedb.Collection.{Collection, secure_level_in_index}
use tie.Tiedb.Intern.{blocks, as_blob, value_exists, find_blocks, get_entry_from_string}
use tie.Tiedb.Intern.Lookups.{SameTables, secure-SameTables}

-- Every table reads as before, and all fields but the levels are the same.
pub record Unchanged (after before : Collection) : Type 0 where
  pub tables : SameTables after before
  pub others : record after { levels = [] } ≡ record before { levels = [] }

pub Unchanged-refl : (a : Collection) → Unchanged a a
Unchanged-refl a = record {
  tables = record {
    values = λ l uv. refl;
    entries = λ l id. refl;
    forward = λ l id. refl;
    reverse = λ l id. refl;
  };
  others = refl;
}

pub Unchanged-trans : {a b c : Collection} → Unchanged b a → Unchanged c b → Unchanged c a
Unchanged-trans g h = record {
  tables = record {
    values = λ l uv. h.tables.values l uv ∙ g.tables.values l uv;
    entries = λ l id. h.tables.entries l id ∙ g.tables.entries l id;
    forward = λ l id. h.tables.forward l id ∙ g.tables.forward l id;
    reverse = λ l id. h.tables.reverse l id ∙ g.tables.reverse l id;
  };
  others = h.others ∙ g.others;
}

secure-Unchanged : (ic : Collection) (l : ℕ) → Unchanged (secure_level_in_index ic l) ic
secure-Unchanged ic l = record {
  tables = secure-SameTables ic l;
  others = unfold secure_level_in_index in refl;
}

pub value_exists-Unchanged :
    (ic : Collection) (l parent : ℕ) (b : Bytes) → Unchanged (value_exists ic l parent b).0 ic
unfolding value_exists
value_exists-Unchanged ic l parent b = secure-Unchanged ic l

-- Both branches on an optional answer leave the tables as they were.
pub after_answer :
    {A B : Type 0} (ic : Collection) (o : Option A) (stop : Collection × B)
    (next : A → Collection × B)
    → Unchanged stop.0 ic
    → ((a : A) → Unchanged (next a).0 ic)
    → Unchanged (elim o as (λ _. Collection × B) [ none ↦ stop | some a ↦ next a ]).0 ic
after_answer ic none stop next h g = h
after_answer ic (some a) stop next h g = g a

find_blocks-Unchanged :
    (ic : Collection) (parent level i : ℕ) (bs : List Bytes)
    → Unchanged (find_blocks ic parent level i bs).0 ic
unfolding find_blocks
find_blocks-Unchanged ic parent level i [] = Unchanged-refl ic
find_blocks-Unchanged ic parent level i (b ∷ bs) =
    let h = value_exists-Unchanged ic i parent b in
    after_answer ic (value_exists ic i parent b).1 _ (λ tmp. _) h
      (λ tmp.
        Unchanged-trans h (find_blocks-Unchanged (value_exists ic i parent b).0 tmp i (suc i) bs))

-- A lookup of a value leaves every table and every field but the number of levels as it was.
pub get_entry_from_string-Unchanged :
    (ic : Collection) (value : Bytes) → Unchanged (get_entry_from_string ic value).0 ic
unfolding get_entry_from_string
get_entry_from_string-Unchanged ic value = elim (Option-cases (as_blob ic value)) [
  | inl plain ↦ rw (plain, get_entry_from_string) (find_blocks-Unchanged ic 0 0 0 (blocks value))
  | inr (raw, whole) ↦ rw (whole, get_entry_from_string) (Unchanged-refl ic)
]
