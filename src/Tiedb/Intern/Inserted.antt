-- ===== src/Tiedb/Intern/Inserted.antt =====
-- A value that is inserted is found under the id it was given.
use tie.Prelude.{
  ℕ, suc, ◌+◌, ◌/◌, ◌^◌, ◌<◌, ◌≡◌, refl, sym, ◌∙◌, ap, true, Option, none, some, List, [], ◌∷◌,
  arith, length, nat_eq, list_eq, Option-cases, inl, inr,
}
use tie.Prelude.Int.{ℤ, pos}
use tie.Tiedb.Triples.{Bytes, UniqueValue}
use tie.Tiedb.Collection.{Collection, unique_value_eq}
use tie.Tiedb.Intern.{as_blob, blocks, insert_blocks, insert, size_value, get_entry_from_string}
use tie.Tiedb.Intern.Blocks.{length-blocks}
use tie.Tiedb.Intern.Lookups.{value_at}
use tie.Tiedb.Intern.Interned.{IsInterned}
use tie.Tiedb.Intern.Finds.{find-plain, find_from, get_entry_from_string-find}
use tie.Tiedb.Intern.Paths.{insert_blocks-Inserted}

-- What an insertion gives, where the value is not stored whole.
pub record InsertedValue (ic : Collection) (v : Bytes) (r : Collection × ℕ × ℤ) : Type 0 where
  pub interned : IsInterned r.0
  pub keeps :
      (l : ℕ) (uv : UniqueValue) (id : ℕ) → value_at ic l uv ≡ some id → value_at r.0 l uv ≡ some id
  pub blobs : (w : Bytes) → as_blob r.0 w ≡ as_blob ic w
  pub level : ℕ
  pub at : r.2 ≡ pos level
  pub found : find_from r.0 0 0 0 (blocks v) ≡ some (r.1, pos level)

pub insert-Inserted :
    (ic : Collection) (v : Bytes)
    → IsInterned ic
    → as_blob ic v ≡ none
    → ic.total_entries + (length v / size_value + 1) < 2 ^ 64
    → InsertedValue ic v (insert ic v)
unfolding insert
insert-Inserted ic v h plain room =
    let g =
      insert_blocks-Inserted (blocks v) ic true 0 0 0 h (omega arith)
        (omega (arith, room, length-blocks v)) (λ e. cc) in
    rw (plain, insert)
      (record {
        interned = g.interned;
        keeps = g.keeps;
        blobs = g.blobs;
        level = (insert_blocks ic true 0 0 0 (blocks v)).2;
        at = refl;
        found = g.found;
      })

-- A value that is not stored whole, inserted in an interned collection whose counter has room for
-- its blocks, is found under the id and the level that the insertion answered, and the collection
-- stays interned.
pub get_entry_from_string-insert :
    (ic : Collection) (v : Bytes)
    → IsInterned ic
    → as_blob ic v ≡ none
    → ic.total_entries + (length v / size_value + 1) < 2 ^ 64
    → ((get_entry_from_string (insert ic v).0 v).1 ≡ some ((insert ic v).1, (insert ic v).2))
      × IsInterned (insert ic v).0
get_entry_from_string-insert ic v h plain room =
    let g = insert-Inserted ic v h plain room in
    (
      get_entry_from_string-find (insert ic v).0 v
          ∙ find-plain (insert ic v).0 v (g.blobs v ∙ plain)
          ∙ g.found
          ∙ ap (λ (l : ℤ). some ((insert ic v).1, l)) (sym g.at),
      g.interned,
    )

find_from-keeps :
    (before after : Collection)
    → ((l : ℕ) (uv : UniqueValue) (id : ℕ)
        → value_at before l uv ≡ some id
        → value_at after l uv ≡ some id)
    → (last level i : ℕ) (bs : List Bytes) (r : ℕ × ℤ) → find_from before last level i bs ≡ some r
    → find_from after last level i bs ≡ some r
find_from-keeps before after keeps last level i [] r e = e
find_from-keeps before after keeps last level i (b ∷ bs) r e =
    elim (Option-cases (value_at before i (record { parent_id = last; value = b }))) [
      | inl absent ↦ absurd (no_path r (rw (absent, find_from) refl ∙ e))
      | inr (id, there) ↦
          rw (keeps i (record { parent_id = last; value = b }) id there, find_from)
            (find_from-keeps before after keeps id i (suc i) bs r
              ((rw (there, find_from) refl) ∙ e))
    ]
  where
    no_path : (r : ℕ × ℤ) → ◌≡◌ {A = Option (ℕ × ℤ)} none (some r) → ⊥
    no_path r e = cc

-- The insertion of a value that is not stored whole, in an interned collection whose counter has
-- room for its blocks, leaves the answer for every value that was found and is not stored whole.
pub get_entry_from_string-kept :
    (ic : Collection) (v w : Bytes) (r : ℕ × ℤ)
    → IsInterned ic
    → as_blob ic v ≡ none
    → as_blob ic w ≡ none
    → ic.total_entries + (length v / size_value + 1) < 2 ^ 64
    → (get_entry_from_string ic w).1 ≡ some r
    → (get_entry_from_string (insert ic v).0 w).1 ≡ some r
get_entry_from_string-kept ic v w r h plain_v plain_w room e =
    let g = insert-Inserted ic v h plain_v room in
    get_entry_from_string-find (insert ic v).0 w
    ∙ find-plain (insert ic v).0 w (g.blobs w ∙ plain_w)
    ∙ find_from-keeps ic (insert ic v).0 g.keeps 0 0 0 (blocks w) r
        (sym (find-plain ic w plain_w) ∙ sym (get_entry_from_string-find ic w) ∙ e)
