-- ===== src/Tiedb/Query/Holders.antt =====
-- The set of the triples that hold a value, as a function of the tables alone.
use tie.Prelude.{ℕ, nat_eq, get_elem?, ◌≡◌, refl, sym, ap, ◌∙◌, Option, none, some}
use tie.Prelude.Int.{ℤ, pos, negsuc}
use tie.Tiedb.Triples.{Bytes}
use tie.Tiedb.AssociationSet.{AssociationSet, new_association_set}
use tie.Tiedb.LockedTree
use tie.Tiedb.LockedTree.{LockedTree}
use tie.Tiedb.Collection.{Collection, EntryLevel, reverse_associations_tree, level_at}
use tie.Tiedb.Collection.Trees.{at_level}
use tie.Tiedb.Intern.{get_entry_from_string}
use tie.Tiedb.Intern.Finds.{find, get_entry_from_string-find, find-Unchanged}
use tie.Tiedb.Intern.Lookups.{reverse_at}
use tie.Tiedb.Intern.Unchanged.{Unchanged, get_entry_from_string-Unchanged}
use tie.Tiedb.Assoc.{get_reverse_associations}
use tie.Tiedb.Query.{reverse_associations_of}

pub reverse_associations_of-Unchanged :
    (ic : Collection) (value : Bytes) → Unchanged (reverse_associations_of ic value).0 ic
unfolding reverse_associations_of
reverse_associations_of-Unchanged ic value = get_entry_from_string-Unchanged ic value

-- The set that a lookup in the reverse associations gives.
abbrev or_new : Option AssociationSet → AssociationSet
or_new none = new_association_set
or_new (some s) = s

reverse_by_level :
    (o : Option EntryLevel) (id : ℕ)
    → elim (elim o as (λ _. Option (LockedTree ℕ AssociationSet)) [
      | none ↦ none
      | some lvl ↦ some lvl.reverse_associations
    ])
        as (λ _. AssociationSet) [
          | none ↦ new_association_set
          | some t ↦ elim (LockedTree.get t id) as (λ _. AssociationSet) [
            | none ↦ new_association_set
            | some s ↦ s
          ]
        ]
      ≡ or_new (at_level o (λ lvl. LockedTree.get lvl.reverse_associations id))
reverse_by_level none id = refl
reverse_by_level (some lvl) id = by_set (LockedTree.get lvl.reverse_associations id)
  where
    by_set :
        (o : Option AssociationSet)
        → elim o as (λ _. AssociationSet) [ none ↦ new_association_set | some s ↦ s ] ≡ or_new o
    by_set none = refl
    by_set (some s) = refl

get_reverse_associations-at :
    (ic : Collection) (l id : ℕ)
    → get_reverse_associations ic (pos l) id ≡ or_new (reverse_at ic l id)
unfolding get_reverse_associations reverse_associations_tree level_at
get_reverse_associations-at ic l id = reverse_by_level (get_elem? ic.levels l) id

get_reverse-Unchanged :
    (after before : Collection) (level : ℤ) (id : ℕ)
    → Unchanged after before
    → get_reverse_associations after level id ≡ get_reverse_associations before level id
get_reverse-Unchanged after before (pos l) id h =
    get_reverse_associations-at after l id
    ∙ ap or_new (h.tables.reverse l id)
    ∙ sym (get_reverse_associations-at before l id)
get_reverse-Unchanged after before (negsuc l) id h =
    unfold get_reverse_associations reverse_associations_tree level_at in
    ap (λ (c : Collection). get_reverse_associations c (negsuc l) id) h.others

abbrev set_at : Collection → Option (ℕ × ℤ) → Option AssociationSet
set_at ic none = none
set_at ic (some (id, level)) = some (get_reverse_associations ic level id)

-- The set of the triples whose object is the value; `none` if the value is not known.
unfoldable pub holders : Collection → Bytes → Option AssociationSet
holders ic value = set_at ic (find ic value)

set_at-Unchanged :
    (after before : Collection) (o : Option (ℕ × ℤ))
    → Unchanged after before
    → set_at after o ≡ set_at before o
set_at-Unchanged after before none h = refl
set_at-Unchanged after before (some (id, level)) h =
    ap some (get_reverse-Unchanged after before level id h)

pub holders-Unchanged :
    (after before : Collection) (value : Bytes)
    → Unchanged after before
    → holders after value ≡ holders before value
unfolding holders
holders-Unchanged after before value h =
    ap (set_at after) (find-Unchanged after before value h)
    ∙ set_at-Unchanged after before (find before value) h

pub reverse_associations_of-holders :
    (ic : Collection) (value : Bytes) → (reverse_associations_of ic value).1 ≡ holders ic value
unfolding reverse_associations_of holders
reverse_associations_of-holders ic value =
    answered (get_entry_from_string ic value).1
    ∙ ap (set_at (get_entry_from_string ic value).0) (get_entry_from_string-find ic value)
    ∙ set_at-Unchanged (get_entry_from_string ic value).0 ic (find ic value)
        (get_entry_from_string-Unchanged ic value)
  where
    answered :
        (o : Option (ℕ × ℤ))
        → elim o as (λ _. Option AssociationSet) [
          | none ↦ none
          | some (id, level) ↦
              some (get_reverse_associations (get_entry_from_string ic value).0 level id)
        ]
          ≡ set_at (get_entry_from_string ic value).0 o
    answered none = refl
    answered (some (id, level)) = refl
