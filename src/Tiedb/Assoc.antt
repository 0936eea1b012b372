-- ===== src/Tiedb/Assoc.antt =====
-- tiedb/assoc.go: the forward and reverse associations, and the write paths over them. Each
-- operation runs under the collection's write lock, so a run of operations is a sequence.
use tie.Prelude.{
  ℕ, Bool, true, false, Option, none, some, List, [], ◌∷◌, if◌then◌else◌, nat_eq, list_eq, ◌==◌,
  is_some, ◌||◌, ◌⊎◌, inl, inr,
}
use tie.Prelude.Int.{ℤ, is_negative}
use tie.Tiedb.Triples.{Bytes, Triple}
use tie.Tiedb.AssociationSet
use tie.Tiedb.AssociationSet.{AssociationSet, UniqueAssociation, new_association_set}
use tie.Tiedb.LockedTree
use tie.Tiedb.LockedTree.{LockedTree}
use tie.Tiedb.TripleCache
use tie.Tiedb.Slots.{arena_store, arena_free_slot, alloc_slot}
use tie.Tiedb.Collection.{
  Collection, Error, read_only_error, FileMod, add_association, increment, secure_int_level,
  associations_tree, reverse_associations_tree, write_associations, write_reverse_associations,
  queue_write,
}
use tie.Tiedb.Intern.{insert, get_entry_from_string, get_value_string}

-- What Delete and Update report beside their success.
pub data Message : Type 0 where
  nothing : Message
  failed : Error → Message
  key_not_found value_not_found removed_stale field_missing : Message
  added_instead : Message → Message

contains : List Bytes → Bytes → Bool
contains [] r = false
contains (x ∷ xs) r = x == r || contains xs r

unfoldable pub should_build_reverse : Collection → Triple → Bool
unfolding contains
should_build_reverse ic a = elim ic.reverse_relations [
  | none ↦ true
  | some relations ↦ contains relations (get_value_string ic a.value1_level a.value1)
]

-- putAssoc: the set under the outer key, made if it is missing, gets the entry.
unfoldable pub put_assoc :
    ℕ → UniqueAssociation → ℤ → LockedTree ℕ AssociationSet → LockedTree ℕ AssociationSet
put_assoc outer_key sub_key p tree =
    let (s, tree1) = LockedTree.get_or_put tree outer_key new_association_set in
    LockedTree.put tree1 outer_key (AssociationSet.put s sub_key p)

-- A deletion in the set that a tree holds; a set that no tree holds is not seen again.
unfoldable pub delete_assoc :
    ℕ → UniqueAssociation → LockedTree ℕ AssociationSet → LockedTree ℕ AssociationSet
delete_assoc outer_key sub_key tree = elim (LockedTree.get tree outer_key) [
  | none ↦ tree
  | some s ↦ LockedTree.put tree outer_key (AssociationSet.delete s sub_key)
]

unfoldable pub get_associations : Collection → ℤ → ℕ → AssociationSet
get_associations ic level id = elim (associations_tree ic level) [
  | none ↦ new_association_set
  | some t ↦ elim (LockedTree.get t id) [ none ↦ new_association_set | some s ↦ s ]
]

unfoldable pub get_reverse_associations : Collection → ℤ → ℕ → AssociationSet
get_reverse_associations ic level id = elim (reverse_associations_tree ic level) [
  | none ↦ new_association_set
  | some t ↦ elim (LockedTree.get t id) [ none ↦ new_association_set | some s ↦ s ]
]

forward_key : Triple → UniqueAssociation
forward_key a = record { associate_to = a.value2; relation = a.value1 }

reverse_key : Triple → UniqueAssociation
reverse_key a = record { associate_to = a.key; relation = a.value1 }

unfoldable pub insert_association : Collection → ℤ → Triple → ℤ → Collection
unfolding forward_key reverse_key
insert_association ic level a p =
    let ic1 = secure_int_level (secure_int_level ic level) a.value2_level in
    let ic2 = write_associations ic1 level (put_assoc a.key (forward_key a) p) in
    let ic3 = record ic2 { total_associations = increment ic2.total_associations } in
    if should_build_reverse ic3 a
    then write_reverse_associations ic3 a.value2_level (put_assoc a.value2 (reverse_key a) p)
    else ic3

unfoldable pub unique_association_exists : Collection → ℤ → ℕ → ℕ → ℕ → Bool
unique_association_exists ic key_level key value1 value2 = is_some (
    AssociationSet.get (get_associations ic key_level key)
      (record { associate_to = value2; relation = value1 }))

abbrev pub bump_search : Collection → Collection
bump_search ic = record ic { search_gen = increment ic.search_gen }

-- The slot of a new triple: `none` if its write could not be queued.
unfoldable pub reserve : Collection → Triple → Collection × Option ℤ
reserve ic a =
    if ic.write_to_disk
    then (let r = alloc_slot ic.freespace in
        let w = queue_write (record ic { freespace = r.1 }) (add_association r.0 a) in
        if w.1 then (w.0, some r.0) else (w.0, none))
    else (let r = arena_store ic.arena a in (record ic { arena = r.1 }, some r.0))

-- addLocked once the three values are interned.
unfoldable pub add_triple : Collection → Triple → Collection × Option Error
unfolding reserve
add_triple ic a =
    if unique_association_exists ic a.level a.key a.value1 a.value2
    then (ic, none)
    else (let r = reserve ic a in
        elim r.1 [
          | none ↦ (r.0, r.0.io_err)
          | some p ↦ (bump_search (insert_association r.0 a.level a p), none)
        ])

-- The ids and levels of the three values, interned one after the other.
unfoldable pub intern_triple : Collection → Bytes → Bytes → Bytes → Collection × Triple
intern_triple ic key value1 value2 =
    let (ic1, k, kl) = insert ic key in
    let (ic2, r, rl) = insert ic1 value1 in
    let (ic3, v, vl) = insert ic2 value2 in
    (
      ic3,
      record { level = kl; key = k; value1_level = rl; value1 = r; value2_level = vl; value2 = v },
    )

unfoldable pub add : Collection → Bytes → Bytes → Bytes → Collection × Option Error
add ic key value1 value2 = if ic.read_only then (ic, some read_only_error) else elim ic.io_err [
  | some e ↦ (ic, some e)
  | none ↦ let r = intern_triple ic key value1 value2 in add_triple r.0 r.1
]

-- The effect of deleteAssociation besides the deletion from the set.
unfoldable pub retire_record : Collection → ℤ → Collection
retire_record ic p =
    if ic.write_to_disk
    then (let ic1 = record ic {
      cache = elim ic.cache [
        | none ↦ none
        | some c ↦ some (if is_negative p then c else TripleCache.evict c p)
      ];
    } in
        (queue_write ic1 (FileMod.delete p)).0)
    else record ic { arena = arena_free_slot ic.arena p }

-- deleteLocked once the three values are found.
unfoldable pub delete_triple : Collection → Triple → Collection × Message × Bool
unfolding forward_key reverse_key retire_record
delete_triple ic a = elim (AssociationSet.get (get_associations ic a.level a.key) (forward_key a)) [
  | some p ↦
      let ic1 = write_associations ic a.level (delete_assoc a.key (forward_key a)) in
      let ic2 = retire_record ic1 p in
      let ic3 =
        write_reverse_associations ic2 a.value2_level (delete_assoc a.value2 (reverse_key a)) in
      (bump_search ic3, nothing, true)
  | none ↦
      if is_some
        (AssociationSet.get (get_reverse_associations ic a.value2_level a.value2) (reverse_key a))
      then (
        write_reverse_associations ic a.value2_level (delete_assoc a.value2 (reverse_key a)),
        removed_stale,
        true,
      )
      else (ic, value_not_found, false)
]

-- The three lookups of deleteLocked, which all run before any is judged.
unfoldable pub find_triple : Collection → Bytes → Bytes → Bytes → Collection × (Message ⊎ Triple)
find_triple ic key value1 value2 =
    let r1 = get_entry_from_string ic key in
    let r2 = get_entry_from_string r1.0 value1 in
    let r3 = get_entry_from_string r2.0 value2 in (r3.0, join r1.1 r2.1 r3.1)
  where
    join : Option (ℕ × ℤ) → Option (ℕ × ℤ) → Option (ℕ × ℤ) → Message ⊎ Triple
    join none r v = inl key_not_found
    join (some k) none v = inl value_not_found
    join (some k) (some r) none = inl value_not_found
    join (some (k, kl)) (some (r, rl)) (some (v, vl)) = inr (record {
      level = kl;
      key = k;
      value1_level = rl;
      value1 = r;
      value2_level = vl;
      value2 = v;
    })

unfoldable pub delete : Collection → Bytes → Bytes → Bytes → Collection × Message × Bool
delete ic key value1 value2 =
    if ic.read_only
    then (ic, failed read_only_error, false)
    else (let r = find_triple ic key value1 value2 in
        elim r.1 [ inl m ↦ (r.0, m, false) | inr a ↦ delete_triple r.0 a ])

-- The end of an update: the answer of its add.
after_add : Collection × Option Error → Message → Collection × Message × Bool
after_add (ic, none) m = (ic, m, true)
after_add (ic, some e) m = (ic, failed e, false)

unfoldable pub update : Collection → Bytes → Bytes → Bytes → Bytes → Collection × Message × Bool
unfolding after_add
update ic key value1 value2 new_value2 =
    if ic.read_only
    then (ic, failed read_only_error, false)
    else (let (ic1, m, done) = delete ic key value1 value2 in
        if done then after_add (add ic1 key value1 new_value2) nothing else (ic1, m, false))

unfoldable pub update_add : Collection → Bytes → Bytes → Bytes → Bytes → Collection × Message × Bool
unfolding after_add
update_add ic key value1 value2 new_value2 =
    if ic.read_only
    then (ic, failed read_only_error, false)
    else (let (ic1, m, done) = delete ic key value1 value2 in
        after_add (add ic1 key value1 new_value2) (if done then nothing else added_instead m))
