-- ===== src/Tiedb/Intern/Interned.antt =====
-- The invariant of the interned values, and what one new entry does to it.
use tie.Prelude.{
  ℕ, ◌≤◌, ◌<◌, ◌≡◌, sym, ◌∙◌, ◌&&◌, Option, none, some, arith, if◌then◌else◌, nat_eq, nat_beq,
  nat_beq_iff, list_eq, ◌==◌,
}
use tie.Tiedb.Triples.{Bytes, UniqueValue}
use tie.Tiedb.LockedTree
use tie.Tiedb.Collection.{Collection, unique_value_eq, unique_value_beq_iff}
use tie.Tiedb.Intern.{hash_id}
use tie.Tiedb.Intern.Lookups.{value_at, entry_at}

abbrev pub hash_raw : Collection → ℕ → Option Bytes
hash_raw ic id = elim ic.hash_entries [ none ↦ none | some t ↦ LockedTree.get t id ]

-- A block's id leads back to the block; ids are global, below the counter, and above their
-- parent's; a whole value's id leads back to it, and is no block's.
pub record IsInterned (ic : Collection) : Type 0 where
  pub entry :
      (l : ℕ) (uv : UniqueValue) (id : ℕ) → value_at ic l uv ≡ some id → entry_at ic l id ≡ some uv
  pub counted :
      (l : ℕ) (uv : UniqueValue) (id : ℕ) → value_at ic l uv ≡ some id → id ≤ ic.total_entries
  pub parents : (l : ℕ) (uv : UniqueValue) (id : ℕ) → value_at ic l uv ≡ some id → uv.parent_id < id
  pub one_level :
      (l : ℕ) (uv : UniqueValue) (m : ℕ) (w : UniqueValue) (id : ℕ)
      → value_at ic l uv ≡ some id
      → value_at ic m w ≡ some id
      → l ≡ m
  pub whole : (raw : Bytes) (id : ℕ) → hash_id ic raw ≡ some id → hash_raw ic id ≡ some raw
  pub whole_counted : (raw : Bytes) (id : ℕ) → hash_id ic raw ≡ some id → id ≤ ic.total_entries
  pub apart :
      (raw : Bytes) (l : ℕ) (uv : UniqueValue) (id : ℕ)
      → hash_id ic raw ≡ some id
      → value_at ic l uv ≡ some id
      → ⊥

-- The collection after a new block, by its tables.
pub record AddsEntry (ic after : Collection) (l id : ℕ) (uv : UniqueValue) : Type 0 where
  pub values :
      (i : ℕ) (w : UniqueValue)
      → value_at after i w ≡ (if nat_beq l i && (uv == w) then some id else value_at ic i w)
  pub entries :
      (i j : ℕ)
      → entry_at after i j ≡ (if nat_beq l i && nat_beq id j then some uv else entry_at ic i j)
  pub hashes : (raw : Bytes) → hash_id after raw ≡ hash_id ic raw
  pub raws : (j : ℕ) → hash_raw after j ≡ hash_raw ic j
  pub total : after.total_entries ≡ id

module _ (ic after : Collection) (l id : ℕ) (uv : UniqueValue) (h : IsInterned ic)
    (fresh : ic.total_entries < id) (below : uv.parent_id < id)
    (adds : AddsEntry ic after l id uv) where
  added_entry :
      (i : ℕ) (w : UniqueValue) (j : ℕ) → value_at after i w ≡ some j → entry_at after i j ≡ some w
  added_entry i w j e = ground (
    arith,
    adds.values i w,
    adds.entries i j,
    nat_beq_iff l i,
    unique_value_beq_iff uv w,
    nat_beq_iff id j,
    h.entry i w j,
    h.counted i w j,
  )

  pub adding-IsInterned : IsInterned after
  adding-IsInterned = record {
    entry = added_entry;
    counted = λ i w j e. ground (arith, adds.values i w, adds.total, h.counted i w j);
    parents =
        λ i w j e. ground (arith, adds.values i w, unique_value_beq_iff uv w, h.parents i w j);
    one_level = λ i w m x j e g. ground (
      arith,
      adds.values i w,
      adds.values m x,
      nat_beq_iff l i,
      nat_beq_iff l m,
      h.counted i w j,
      h.counted m x j,
      h.one_level i w m x j,
    );
    whole = λ raw j e. adds.raws j ∙ h.whole raw j (sym (adds.hashes raw) ∙ e);
    whole_counted =
        λ raw j e. omega (arith, adds.total, h.whole_counted raw j (sym (adds.hashes raw) ∙ e));
    apart = λ raw i w j e g.
        ground (arith, adds.values i w, adds.hashes raw, h.whole_counted raw j, h.apart raw i w j);
  }
