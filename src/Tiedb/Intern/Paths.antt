-- ===== src/Tiedb/Intern/Paths.antt =====
-- A path of blocks that is inserted is found, and the blocks that were there keep their ids.
use tie.Prelude.{
  ℕ, suc, ◌+◌, ◌^◌, ◌≤◌, ◌<◌, ◌≡◌, refl, sym, ◌∙◌, ap, Bool, true, false, Option, none, some, List,
  [], ◌∷◌, arith, length, nat_eq, nat_beq_iff, list_eq, Option-cases, inl, inr,
}
use tie.Prelude.Int.{pos}
use tie.Tiedb.Triples.{Bytes, UniqueValue}
use tie.Tiedb.Collection.{Collection, unique_value_eq, unique_value_beq_iff}
use tie.Tiedb.Intern.{as_blob, hash_id, insert_value, value_exists, insert_blocks}
use tie.Tiedb.Intern.Lookups.{value_at}
use tie.Tiedb.Intern.Interned.{hash_raw, IsInterned, adding-IsInterned}
use tie.Tiedb.Intern.Unchanged.{Unchanged, value_exists-Unchanged}
use tie.Tiedb.Intern.Finds.{find_from, value_exists-answer, as_blob-Unchanged, hash_id-Unchanged}
use tie.Tiedb.Intern.Inserts.{OneBlock, insert_value-OneBlock}

hash_raw-Unchanged :
    (after before : Collection) (id : ℕ)
    → Unchanged after before
    → hash_raw after id ≡ hash_raw before id
hash_raw-Unchanged after before id h = ap (λ (c : Collection). hash_raw c id) h.others

IsInterned-Unchanged :
    (after before : Collection) → Unchanged after before → IsInterned before → IsInterned after
IsInterned-Unchanged after before h g =
    let total : after.total_entries ≡ before.total_entries =
      ap (λ (c : Collection). c.total_entries) h.others in
    let old = λ (l : ℕ) (uv : UniqueValue) (id : ℕ) (e : value_at after l uv ≡ some id).
      sym (h.tables.values l uv) ∙ e in
    let held = λ (raw : Bytes) (id : ℕ) (e : hash_id after raw ≡ some id).
      sym (hash_id-Unchanged after before raw h) ∙ e in
    record {
      entry = λ l uv id e. h.tables.entries l id ∙ g.entry l uv id (old l uv id e);
      counted = λ l uv id e. omega (arith, total, g.counted l uv id (old l uv id e));
      parents = λ l uv id e. g.parents l uv id (old l uv id e);
      one_level = λ l uv m w id e f. g.one_level l uv m w id (old l uv id e) (old m w id f);
      whole = λ raw id e. hash_raw-Unchanged after before id h ∙ g.whole raw id (held raw id e);
      whole_counted = λ raw id e. omega (arith, total, g.whole_counted raw id (held raw id e));
      apart = λ raw l uv id e f. g.apart raw l uv id (held raw id e) (old l uv id f);
    }

-- What the insertion of a path of blocks below an entry gives.
pub record Inserted (ic : Collection) (last level i : ℕ) (bs : List Bytes) (r : Collection × ℕ × ℕ)
    : Type 0 where
  pub interned : IsInterned r.0
  pub keeps :
      (l : ℕ) (uv : UniqueValue) (id : ℕ) → value_at ic l uv ≡ some id → value_at r.0 l uv ≡ some id
  pub blobs : (v : Bytes) → as_blob r.0 v ≡ as_blob ic v
  pub found : find_from r.0 last level i bs ≡ some (r.1, pos r.2)

Inserted-Unchanged :
    (now ic : Collection) (last level i : ℕ) (bs : List Bytes) (r : Collection × ℕ × ℕ)
    → Unchanged now ic
    → Inserted now last level i bs r
    → Inserted ic last level i bs r
Inserted-Unchanged now ic last level i bs r h g = record {
  interned = g.interned;
  keeps = λ l uv id e. g.keeps l uv id (h.tables.values l uv ∙ e);
  blobs = λ v. g.blobs v ∙ as_blob-Unchanged now ic v h;
  found = g.found;
}

-- A path whose first block is there.
old_block :
    (ic : Collection) (last level i : ℕ) (b : Bytes) (bs : List Bytes) (tmp : ℕ)
    (r : Collection × ℕ × ℕ)
    → value_at ic i (record { parent_id = last; value = b }) ≡ some tmp
    → Inserted ic tmp i (suc i) bs r
    → Inserted ic last level i (b ∷ bs) r
old_block ic last level i b bs tmp r e g = record {
  interned = g.interned;
  keeps = g.keeps;
  blobs = g.blobs;
  found = rw (g.keeps i (record { parent_id = last; value = b }) tmp e, find_from) g.found;
}

-- A path whose first block is new.
new_block :
    (ic : Collection) (last level i : ℕ) (b : Bytes) (bs : List Bytes) (w : ℕ × Collection)
    (r : Collection × ℕ × ℕ)
    → value_at ic i (record { parent_id = last; value = b }) ≡ none
    → OneBlock ic i last b w
    → Inserted w.1 w.0 i (suc i) bs r
    → Inserted ic last level i (b ∷ bs) r
new_block ic last level i b bs w r absent one g =
    let uv : UniqueValue = record { parent_id = last; value = b } in
    let there : value_at w.1 i uv ≡ some w.0 =
      ground (arith, one.adds.values i uv, nat_beq_iff i i, unique_value_beq_iff uv uv) in
    record {
      interned = g.interned;
      keeps = λ l x id e. g.keeps l x id (
          ground
            (arith, one.adds.values l x, e, absent, nat_beq_iff i l, unique_value_beq_iff uv x));
      blobs = λ v. g.blobs v ∙ one.blobs v;
      found = rw (g.keeps i uv w.0 there, find_from) g.found;
    }

-- No block is below the entry that was numbered last.
childless :
    (ic : Collection) (i : ℕ) (uv : UniqueValue)
    → IsInterned ic
    → uv.parent_id ≡ ic.total_entries
    → value_at ic i uv ≡ none
childless ic i uv h e = elim (Option-cases (value_at ic i uv)) [
  | inl absent ↦ absent
  | inr (id, there) ↦ absurd (omega (arith, h.parents i uv id there, h.counted i uv id there, e))
]

-- The path below an entry, whether or not its blocks are looked for first; they need not be below
-- the entry that was numbered last.
abbrev pub Goes : List Bytes → Type 0
Goes bs =
    (ic : Collection) (check : Bool) (last level i : ℕ)
    → IsInterned ic
    → last ≤ ic.total_entries
    → ic.total_entries + length bs < 2 ^ 64
    → (check ≡ false → last ≡ ic.total_entries)
    → Inserted ic last level i bs (insert_blocks ic check last level i bs)

after_new :
    (ic : Collection) (last level i : ℕ) (b : Bytes) (bs : List Bytes)
    → IsInterned ic
    → last ≤ ic.total_entries
    → ic.total_entries + suc (length bs) < 2 ^ 64
    → value_at ic i (record { parent_id = last; value = b }) ≡ none
    → Goes bs
    → Inserted ic last level i
        (b ∷ bs)
        (insert_blocks (insert_value ic i last b).1 false (insert_value ic i last b).0 i (suc i) bs)
after_new ic last level i b bs h below room absent rest =
    let w = insert_value ic i last b in
    let one = insert_value-OneBlock ic i last b (omega (arith, room)) in
    let fresh : ic.total_entries < w.0 = omega (arith, one.fresh) in
    let grown =
      adding-IsInterned ic w.1 i w.0 (record { parent_id = last; value = b }) h fresh
        (omega (arith, below, fresh)) one.adds in
    new_block ic last level i b bs w _ absent one (
      rest w.1 false w.0 i (suc i) grown (omega (arith, one.adds.total))
        (omega (arith, one.adds.total, one.fresh, room)) (λ e. sym one.adds.total))

by_answer :
    (ic : Collection) (last level i : ℕ) (b : Bytes) (bs : List Bytes) (r : Collection × Option ℕ)
    → Unchanged r.0 ic
    → r.1 ≡ value_at ic i (record { parent_id = last; value = b })
    → IsInterned ic
    → last ≤ ic.total_entries
    → ic.total_entries + suc (length bs) < 2 ^ 64
    → Goes bs
    → Inserted ic last level i (b ∷ bs) (elim r.1 as (λ _. Collection × ℕ × ℕ) [
      | some tmp ↦ insert_blocks r.0 true tmp i (suc i) bs
      | none ↦
          insert_blocks
            (insert_value r.0 i last b).1
            false
            (insert_value r.0 i last b).0
            i
            (suc i)
            bs
    ])
by_answer ic last level i b bs (c, some tmp) h e g below room rest =
    let total : c.total_entries ≡ ic.total_entries =
      ap (λ (d : Collection). d.total_entries) h.others in
    let known = sym e in
    old_block ic last level i b bs tmp _ known (
      Inserted-Unchanged c ic tmp i (suc i) bs _ h (
        rest c true tmp i (suc i) (IsInterned-Unchanged c ic h g)
          (omega (arith, total, g.counted i (record { parent_id = last; value = b }) tmp known))
          (omega (arith, total, room)) (λ f. cc)))
by_answer ic last level i b bs (c, none) h e g below room rest =
    let total : c.total_entries ≡ ic.total_entries =
      ap (λ (d : Collection). d.total_entries) h.others in
    Inserted-Unchanged c ic last level i (b ∷ bs) _ h (
      after_new c last level i b bs (IsInterned-Unchanged c ic h g) (omega (arith, total, below))
        (omega (arith, total, room))
        (h.tables.values i (record { parent_id = last; value = b }) ∙ sym e) rest)

pub insert_blocks-Inserted : (bs : List Bytes) → Goes bs
unfolding insert_blocks
insert_blocks-Inserted [] ic check last level i h below room new = record {
  interned = h;
  keeps = λ l uv id e. e;
  blobs = λ v. refl;
  found = refl;
}
insert_blocks-Inserted (b ∷ bs) ic false last level i h below room new =
    after_new ic last level i b bs h below room
      (childless ic i (record { parent_id = last; value = b }) h (new refl))
      (insert_blocks-Inserted bs)
insert_blocks-Inserted (b ∷ bs) ic true last level i h below room new =
    by_answer ic last level i b bs (value_exists ic i last b) (value_exists-Unchanged ic i last b)
      (value_exists-answer ic i last b) h below room (insert_blocks-Inserted bs)
