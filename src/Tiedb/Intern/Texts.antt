-- ===== src/Tiedb/Intern/Texts.antt =====
-- The text of a value that was inserted is the value.
use tie.Prelude.{
  ℕ, suc, ◌+◌, ◌/◌, ◌^◌, ◌<◌, ◌≡◌, refl, sym, ◌∙◌, ap, Option, none, some, List, [], ◌∷◌, ◌++◌,
  length, nat_eq, get_elem?, arith, Option-cases, inl, inr,
}
use mathlib.Core.Path.{subst}
use tie.Prelude.Int.{ℤ, pos, negsuc}
use tie.Tiedb.Triples.{Bytes, UniqueValue}
use tie.Tiedb.LockedTree
use tie.Tiedb.Collection.{Collection, EntryLevel, level_at, unique_value_eq}
use tie.Tiedb.Collection.Trees.{at_level}
use tie.Tiedb.Intern.{
  size_value, as_blob, blocks, insert, get_unique_value, chain, assemble, get_value, trim_right,
  get_value_string,
}
use tie.Tiedb.Intern.Blocks.{joined, joined-blocks, length-blocks, trim-pad}
use tie.Tiedb.Intern.Lookups.{value_at, entry_at}
use tie.Tiedb.Intern.Interned.{IsInterned}
use tie.Tiedb.Intern.Finds.{find_from}
use tie.Tiedb.Intern.Inserted.{insert-Inserted}

append_assoc : (xs ys zs : Bytes) → (xs ++ ys) ++ zs ≡ xs ++ (ys ++ zs)
append_assoc [] ys zs = refl
append_assoc (x ∷ xs) ys zs = ap (◌∷◌ x) (append_assoc xs ys zs)

append_nil : (xs : Bytes) → xs ++ [] ≡ xs
append_nil [] = refl
append_nil (x ∷ xs) = ap (◌∷◌ x) (append_nil xs)

get_unique_value-entry : (ic : Collection) (l id : ℕ) → get_unique_value ic l id ≡ entry_at ic l id
unfolding get_unique_value level_at
get_unique_value-entry ic l id = by_level (get_elem? ic.levels l)
  where
    by_level :
        (o : Option EntryLevel)
        → elim o as (λ _. Option UniqueValue) [
          | none ↦ none
          | some lvl ↦ LockedTree.get lvl.entries id
        ]
          ≡ at_level o (λ lvl. LockedTree.get lvl.entries id)
    by_level none = refl
    by_level (some lvl) = refl

-- The blocks up to an entry.
record Reads (ic : Collection) (level id : ℕ) (text : Bytes) : Type 0 where
  entries : List UniqueValue
  linked : chain ic level id ≡ some entries
  text_is : assemble entries ≡ text

first_block :
    (ic : Collection) (parent id : ℕ) (b : Bytes)
    → IsInterned ic
    → value_at ic 0 (record { parent_id = parent; value = b }) ≡ some id
    → Reads ic 0 id b
unfolding chain assemble
first_block ic parent id b h e =
    let uv : UniqueValue = record { parent_id = parent; value = b } in
    let there = get_unique_value-entry ic 0 id ∙ h.entry 0 uv id e in
    record { entries = uv ∷ []; linked = rw (there, chain) refl; text_is = refl }

next_block :
    (ic : Collection) (level last id : ℕ) (text b : Bytes)
    → IsInterned ic
    → Reads ic level last text
    → value_at ic (suc level) (record { parent_id = last; value = b }) ≡ some id
    → Reads ic (suc level) id (text ++ b)
unfolding chain assemble
next_block ic level last id text b h r e =
    let uv : UniqueValue = record { parent_id = last; value = b } in
    let there = get_unique_value-entry ic (suc level) id ∙ h.entry (suc level) uv id e in
    record {
      entries = uv ∷ r.entries;
      linked = rw (there, chain) (rw r.linked refl);
      text_is = ap (λ (t : Bytes). t ++ b) r.text_is;
    }

retext :
    {ic : Collection} {level id : ℕ} {text new : Bytes}
    → text ≡ new
    → Reads ic level id text
    → Reads ic level id new
retext e r = record { entries = r.entries; linked = r.linked; text_is = r.text_is ∙ e }

abbrev id_of : Option (ℕ × ℤ) → ℕ
id_of none = 0
id_of (some r) = r.0

abbrev level_of : Option (ℕ × ℤ) → ℕ
level_of none = 0
level_of (some (id, pos l)) = l
level_of (some (id, negsuc l)) = 0

no_path : (r : ℕ × ℤ) → ◌≡◌ {A = Option (ℕ × ℤ)} none (some r) → ⊥
no_path r e = cc

-- A path that is found from an entry reads as the entry's text and the blocks of the path.
path-Reads :
    (ic : Collection) (last level : ℕ) (bs : List Bytes) (id l : ℕ) (text : Bytes)
    → IsInterned ic
    → Reads ic level last text
    → find_from ic last level (suc level) bs ≡ some (id, pos l)
    → Reads ic l id (text ++ joined bs)
path-Reads ic last level [] id l text h r e =
    subst (λ o. Reads ic (level_of o) (id_of o) (text ++ [])) e (retext (sym (append_nil text)) r)
path-Reads ic last level (b ∷ bs) id l text h r e =
    elim (Option-cases (value_at ic (suc level) (record { parent_id = last; value = b }))) [
      | inl absent ↦ absurd (no_path (id, pos l) (rw (absent, find_from) refl ∙ e))
      | inr (next, there) ↦ retext (append_assoc text b (joined bs)) (
          path-Reads ic next (suc level) bs id l (text ++ b) h
            (next_block ic level last next text b h r there) (rw (there, find_from) refl ∙ e))
    ]

value-Reads :
    (ic : Collection) (b : Bytes) (bs : List Bytes) (id l : ℕ)
    → IsInterned ic
    → find_from ic 0 0 0 (b ∷ bs) ≡ some (id, pos l)
    → Reads ic l id (joined (b ∷ bs))
value-Reads ic b bs id l h e =
    elim (Option-cases (value_at ic 0 (record { parent_id = 0; value = b }))) [
      | inl absent ↦ absurd (no_path (id, pos l) (rw (absent, find_from) refl ∙ e))
      | inr (next, there) ↦
          path-Reads ic next 0 bs id l b h (first_block ic 0 next b h there)
            (rw (there, find_from) refl ∙ e)
    ]

text_at :
    (ic : Collection) (l id : ℕ) (text : Bytes)
    → Reads ic l id text
    → get_value_string ic (pos l) id ≡ trim_right text
unfolding get_value_string get_value
text_at ic l id text r = rw r.linked (ap trim_right r.text_is)

found_text :
    (ic : Collection) (v : Bytes) (bs : List Bytes) (id l : ℕ)
    → IsInterned ic
    → blocks v ≡ bs
    → find_from ic 0 0 0 bs ≡ some (id, pos l)
    → get_value_string ic (pos l) id ≡ trim_right v
found_text ic v [] id l h cut e = absurd (omega (arith, length-blocks v, ap length cut))
found_text ic v (b ∷ bs) id l h cut e =
    text_at ic l id (joined (b ∷ bs)) (value-Reads ic b bs id l h e)
    ∙ ap (λ (cs : List Bytes). trim_right (joined cs)) (sym cut)
    ∙ ap trim_right (joined-blocks v)
    ∙ trim-pad v

-- A value that is not stored whole and does not end in a NUL, inserted in an interned collection
-- whose counter has room for its blocks, is the text of the id and the level that the insertion
-- answered.
pub get_value_string-insert :
    (ic : Collection) (v : Bytes)
    → IsInterned ic
    → as_blob ic v ≡ none
    → trim_right v ≡ v
    → ic.total_entries + (length v / size_value + 1) < 2 ^ 64
    → get_value_string (insert ic v).0 (insert ic v).2 (insert ic v).1 ≡ v
get_value_string-insert ic v h plain clean room =
    let g = insert-Inserted ic v h plain room in
    ap (λ (l : ℤ). get_value_string (insert ic v).0 l (insert ic v).1) g.at
    ∙ found_text (insert ic v).0 v (blocks v) (insert ic v).1 g.level g.interned refl g.found
    ∙ clean
